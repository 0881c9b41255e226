-- ===== src/Django/Pull/Pages/Ending.antt =====
-- How a run of services/pull.py ends.
use bapp_connectors.Base.{
  Bool-cases, List, Option, String, [], ap, arith, false, if◌then◌else◌, inl, inr, leb, max, none,
  not, refl, some, suc, text_or_empty, true, truthy, zero, ℕ, ◌+◌, ◌<◌, ◌∙◌, ◌≡◌, ◌≤◌, ◌⊎◌,
  string_key,
}
use bapp_connectors.Effect.{Action, Outcome, ok, raise, recover, resume, ◌>>=◌}
use bapp_connectors.Sync.Dto.{Page, Product}
use bapp_connectors.Django.Desk.{Desk, IsReleased, acquire_lock, is_held, on_outside}
use bapp_connectors.Django.Pull.{PageDesk, PullReport, new_report}
use bapp_connectors.Django.Pull.Pages.{
  PullCall, PullSource, by_remote, fetch, finish, finish_state, handle_page, note_failure, pull,
  pull_items, pull_pages, pull_run, reached, resolve_source, since_of,
}
use bapp_connectors.Django.Pull.Pages.Accounting.{Counted, pull_items_counts}
use bapp_connectors.Sync.Adapter.{present}
use bapp_connectors.Django.SyncState.{
  SyncState, SyncStatus, completed, mark_completed, mark_failed, mark_running, or_now, reset_cursor,
}

completed-IsReleased : (t : SyncStatus) → t ≡ completed → IsReleased t
completed-IsReleased t h = rw h tt

-- A run that ends at a cursor, one broken off at the page limit, completes with that cursor to go
-- on from and the old time of the last sync, or the present time where there was none; any other run
-- completes without a cursor and with the time at which it started.
pub finish_state_lem :
    (now started : ℕ) (cursor : Option String) (s : SyncState)
    → let t = finish_state now started cursor s in
      let goes_on = truthy (text_or_empty cursor) in
      (t.status ≡ completed)
      × (t.cursor ≡ text_or_empty cursor)
      × (t.last_sync_at ≡ some (if goes_on then or_now now s.last_sync_at else started))
unfolding finish_state mark_completed reset_cursor
finish_state_lem now started none s = (refl, refl, refl)
finish_state_lem now started (some String.[]) s = (refl, refl, refl)
finish_state_lem now started (some (String.◌∷◌ ch rest)) s = (refl, refl, refl)

module _ {ℓ} {W : Type ℓ} (c : PullCall W) (n : ℕ) where
  -- The loop has stopped, at no more pages than it may fetch.
  abbrev Stops : ℕ → Outcome (Option (Option String)) × Desk PullReport W → Type 0
  Stops m (ok none, d) = ⊥
  Stops m (ok (some _), d) = d.report.pages ≤ m
  Stops m (raise _, d) = d.report.pages ≤ m

  Counted-pages :
      (products : List Product) (s : PageDesk W) (r : Outcome (Unit {0}) × PageDesk W)
      → Counted c products s r
      → r.1.1.report.pages ≡ s.1.report.pages
  Counted-pages products s (ok _, s') h = h.0.1
  Counted-pages products s (raise _, s') (_, _, _, _, _, _, _, h) = h.1

  handle_page_pages :
      (products : List Product) (d : Desk PullReport W)
      → (handle_page c products d).1.report.pages ≡ d.report.pages + 1
  unfolding handle_page
  handle_page_pages products d =
      let counted = record d { report = record d.report { pages = d.report.pages + 1 } } in
      let s : PageDesk W = (by_remote products d.links [], counted) in
      Counted-pages products s (pull_items c products s) (pull_items_counts c products s)

  -- after a page: the loop stops, or goes on below the limit
  abbrev next_page :
      ℕ → PullSource W → Option ℕ → Page → Action (Desk PullReport W) (Option (Option String))
  next_page fuel source since page d =
      let rest = pull_pages c fuel source since page.cursor d in
      if not page.has_more
      then (ok (some none), d)
      else if reached c.max_pages d.report.pages
      then (ok (some page.cursor), d)
      else rest

  at_limit : (k : ℕ) → c.max_pages ≡ some n → reached c.max_pages k ≡ leb n k
  unfolding reached
  at_limit k h = ap (λ o. reached o k) h

  next_page-Stops :
      (m fuel : ℕ) (source : PullSource W) (since : Option ℕ) (page : Page) (d : Desk PullReport W)
      → c.max_pages ≡ some n
      → d.report.pages ≤ m
      → (d.report.pages < n → Stops m (pull_pages c fuel source since page.cursor d))
      → Stops m (next_page fuel source since page d)
  next_page-Stops m fuel source since page d h le go = elim (Bool-cases page.has_more) [
    | inr last ↦ rw last le
    | inl more ↦ elim (Bool-cases (leb n d.report.pages)) [
      | inl full ↦ rw (more, at_limit d.report.pages h ∙ full) le
      | inr room ↦ rw (more, at_limit d.report.pages h ∙ room) (go (ground arith))
    ]
  ]

  after_page :
      (m fuel : ℕ) (source : PullSource W) (since : Option ℕ) (page : Page)
      (r : Outcome (Unit {0}) × Desk PullReport W)
      → c.max_pages ≡ some n
      → r.1.report.pages ≤ m
      → ((d : Desk PullReport W)
          → d.report.pages ≡ r.1.report.pages
          → d.report.pages < n
          → Stops m (pull_pages c fuel source since page.cursor d))
      → Stops m (resume (λ _. next_page fuel source since page) r)
  after_page m fuel source since page (ok _, d) h le go =
      next_page-Stops m fuel source since page d h le (go d refl)
  after_page m fuel source since page (raise _, d) h le go = le

  after_fetch :
      (m fuel : ℕ) (source : PullSource W) (since : Option ℕ) (d : Desk PullReport W)
      (r : Outcome Page × W)
      → c.max_pages ≡ some n
      → d.report.pages + 1 ≤ m
      → ((page : Page) (d' : Desk PullReport W)
          → d'.report.pages ≡ d.report.pages + 1
          → d'.report.pages < n
          → Stops m (pull_pages c fuel source since page.cursor d'))
      → Stops m (
          resume
            (λ page. handle_page c page.items >>= λ _. next_page fuel source since page)
            (on_outside d r))
  after_fetch m fuel source since d (raise _, w') h le go = omega (arith, le)
  after_fetch m fuel source since d (ok page, w') h le go =
      let d' = record d { outside = w' } in
      let k = handle_page_pages page.items d' in
      after_page m fuel source since page (handle_page c page.items d') h (omega (arith, k, le))
        (λ d'' e. go page d'' (e ∙ k))

  pull_pages-Stops :
      (m fuel : ℕ) (source : PullSource W) (since : Option ℕ) (cursor : Option String)
      (d : Desk PullReport W)
      → c.max_pages ≡ some n
      → 1 ≤ fuel
      → n ≤ d.report.pages + fuel
      → n ≤ m
      → d.report.pages + 1 ≤ m
      → Stops m (pull_pages c fuel source since cursor d)
  unfolding pull_pages
  pull_pages-Stops m zero source since cursor d h one enough le room = absurd (omega (arith, one))
  pull_pages-Stops m (suc fuel) source since cursor d h one enough le room =
      after_fetch m fuel source since d (fetch c source since cursor d.outside) h room
        (λ page d' e below.
          pull_pages-Stops m fuel source since page.cursor d' h (omega (arith, enough, e, below))
            (omega (arith, enough, e)) le (omega (arith, le, below)))

  abbrev pub Ends : Outcome (Option (Unit {0})) × Desk PullReport W → Type 0
  Ends (ok (some _), d) = (d.report.pages ≤ max 1 n) × IsReleased d.state.status
  Ends _ = ⊥

  finish-Ends :
      (started : ℕ) (r : Outcome (Option (Option String)) × Desk PullReport W)
      → Stops (max 1 n) r
      → Ends (recover (note_failure c) (resume (finish c started) r))
  unfolding finish finish_state note_failure mark_completed mark_failed
  finish-Ends started (ok none, d) h = absurd h
  finish-Ends started (ok (some none), d) h = (h, tt)
  finish-Ends started (ok (some (some cursor)), d) h = (
    h,
    completed-IsReleased _ (finish_state_lem (c.now d.outside) started (some cursor) d.state).0,
  )
  finish-Ends started (raise e, d) h = (h, tt)

  run-Ends :
      (fuel started : ℕ) (d : Desk PullReport W) (r : Outcome (PullSource W) × W)
      → c.max_pages ≡ some n
      → max 1 n ≤ fuel
      → d.report.pages ≡ 0
      → Ends (
          recover (note_failure c) (
            resume
              (λ source d'.
                (pull_pages c fuel source (since_of c d'.state) (present (some d'.state.cursor))
                    >>= finish c started)
                  d')
              (on_outside d r)))
  unfolding note_failure mark_failed
  run-Ends fuel started d (raise e, w') h enough start = (omega (arith, start), tt)
  run-Ends fuel started d (ok source, w') h enough start =
      let d' = record d { outside = w' } in
      finish-Ends started
        (pull_pages c fuel source (since_of c d'.state) (present (some d'.state.cursor)) d')
        (pull_pages-Stops (max 1 n) fuel source (since_of c d'.state)
          (present (some d'.state.cursor)) d' h (omega (arith, enough)) (omega (arith, enough))
          (omega arith) (omega (arith, start)))

  -- A pull of at most n pages, with one unit of fuel for each page and at least one, comes to an end,
  -- whatever the adapter, its construction, the callback and the database raise: either it finds
  -- the lock held, changes nothing and reports that, or it leaves the lock released, as completed or
  -- as failed, and has fetched no more than n pages, or one where n is 0.
  pub pull-Ends :
      (fuel : ℕ) (d : Desk PullReport W)
      → c.max_pages ≡ some n
      → max 1 n ≤ fuel
      → ((is_held (c.now d.outside) d.state ≡ true)
          × (pull c fuel d
              ≡ (ok (some tt), record d { report = record new_report { locked = true } })))
        ⊎ ((is_held (c.now d.outside) d.state ≡ false) × Ends (pull c fuel d))
  unfolding pull pull_run acquire_lock
  pull-Ends fuel d h enough = elim (Bool-cases (is_held (c.now d.outside) d.state)) [
    | inl held ↦ inl (held, rw held refl)
    | inr free ↦ inr (
      free,
      rw free (
          run-Ends fuel (c.now d.outside)
            (record d { state = mark_running (c.now d.outside) d.state; report = new_report })
            (resolve_source c d.outside) h enough refl),
    )
  ]
