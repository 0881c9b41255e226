-- ===== src/Django/Pull/Pages/Items.antt =====
-- Single items of services/pull.py: echoes, and callbacks that raise.
use bapp_connectors.Base.{
  All, Bool, Bool-cases, List, Option, String, [], ap, arith, false, if◌then◌else◌, inl, inr,
  length, none, refl, some, string_key, sym, true, truthy, ℕ, ◌+◌, ◌<>◌, ◌==◌, ◌∙◌, ◌∷◌, ◌≡◌,
}
use bapp_connectors.Base.Dict.{contains, get, get-put, put, same_refl}
use bapp_connectors.Effect.{Outcome, ok, raise, resume}
use bapp_connectors.Sync.Dto.{Product}
use bapp_connectors.Django.Links.{Links, SyncLink}
use bapp_connectors.Django.Desk.{Desk}
use bapp_connectors.Django.Pull.{
  Objects, PageDesk, PullReport, apply_decision, decided, note_failed, note_pulled, remote_modified,
}
use bapp_connectors.Django.Pull.Pages.{
  PullCall, by_remote, count_echo, handle_page, is_among, is_echo, pull_items, pull_one,
}
use bapp_connectors.Errors.{Exn, text_of}

-- the last link with a remote id, or what there was before
abbrev pub last_link : String → Links → Option SyncLink → Option SyncLink
last_link id [] o = o
last_link id ((_, link) ∷ links) o =
    last_link id links (if link.remote_id == id then some link else o)

by_remote_step :
    (products : List Product) (key : String) (link : SyncLink) (links : Links) (objects : Objects)
    → by_remote products ((key, link) ∷ links) objects
      ≡ by_remote products links
          (if is_among link.remote_id products then put link.remote_id link objects else objects)
unfolding by_remote
by_remote_step products key link links objects = refl

by_remote_end :
    (products : List Product) (objects : Objects) → by_remote products [] objects ≡ objects
unfolding by_remote
by_remote_end products objects = refl

impossible : true ≡ false → ⊥
impossible e = cc

get-by_remote :
    (id : String) (products : List Product) (links : Links) (objects : Objects)
    → is_among id products ≡ true
    → get id (by_remote products links objects) ≡ last_link id links (get id objects)
get-by_remote id products [] objects h = rw (by_remote_end products objects) refl
get-by_remote id products ((key, link) ∷ links) objects h =
    let next =
      if is_among link.remote_id products then put link.remote_id link objects else objects in
    rw (by_remote_step products key link links objects)
      (get-by_remote id products links next h ∙ ap (last_link id links) (one link))
  where
    one :
        (link : SyncLink)
        → get id
            (if is_among link.remote_id products then put link.remote_id link objects else objects)
          ≡ (if link.remote_id == id then some link else get id objects)
    one link = elim (Bool-cases (is_among link.remote_id products)) [
      | inl among ↦ rw among (get-put link.remote_id id link objects)
      | inr not_among ↦ rw not_among (elim (Bool-cases (link.remote_id == id)) [
        | inl same ↦ absurd (
            impossible (
              sym h
              ∙ ap (λ k. is_among k products) (sym ((string_key.same_iff link.remote_id id).0 same))
              ∙ not_among))
        | inr other ↦ rw other refl
      ])
    ]

-- the last link of each product's id has the product's time of modification as its remote hash
abbrev pub Quiet : List Product → Links → Type 0
Quiet products links =
    All (λ p. is_echo (remote_modified p) (last_link p.product_id links none) ≡ true) products

echo_objects :
    (all products : List Product) (links : Links)
    → ((id : String) → is_among id products ≡ true → is_among id all ≡ true)
    → Quiet products links
    → All
        (λ p. is_echo (remote_modified p) (get p.product_id (by_remote all links [])) ≡ true)
        products
echo_objects all [] links inn h = tt
echo_objects all (p ∷ products) links inn h = (
  ap (is_echo (remote_modified p)) (
        get-by_remote p.product_id all links []
          (inn p.product_id (rw (same_refl p.product_id) refl)))
      ∙ h.0,
  echo_objects all products links (λ id m. inn id (ground arith)) h.1,
)

-- where the callback has raised
module _ {ℓ} {W : Type ℓ} (duplicate : Exn) (now : ℕ) (product : Product) (e : Exn) where
  raised_counts :
      (link : Option SyncLink) (s : PageDesk W)
      → let r = (apply_decision duplicate now product link (decided (raise e)) s).1.1.report in
        (truthy (text_of e) ≡ true → r.failed ≡ s.1.report.failed + 1)
        × (truthy (text_of e) ≡ false
            → (r.failed ≡ s.1.report.failed)
              × (r.created + r.updated ≡ s.1.report.created + s.1.report.updated + 1))
  unfolding apply_decision note_failed note_pulled
  raised_counts none (objects, d) = (
    λ h. rw h (
        by_branch (contains ("remote:" <> product.product_id) d.links)
          (λ (r : Outcome (Unit {0}) × PageDesk W). r.1.1.report.failed) (d.report.failed + 1) refl
          refl),
    λ h. rw h (refl, omega arith),
  )
    where
      by_branch :
          {A : Type ℓ} {x y : A} (b : Bool) (f : A → ℕ) (n : ℕ)
          → f x ≡ n
          → f y ≡ n
          → f (if b then x else y) ≡ n
      by_branch true f n h k = h
      by_branch false f n h k = k
  raised_counts (some link) (objects, d) = (λ h. rw h refl, λ h. rw h (refl, omega arith))

module _ {ℓ} {W : Type ℓ} (c : PullCall W) where
  abbrev echoed : ℕ → Desk PullReport W → Desk PullReport W
  echoed n d = record d { report = record d.report { echoes = d.report.echoes + n } }

  pull_one_echo :
      (product : Product) (objects : Objects) (d : Desk PullReport W)
      → is_echo (remote_modified product) (get product.product_id objects) ≡ true
      → pull_one c product (objects, d) ≡ (ok tt, (objects, echoed 1 d))
  unfolding pull_one count_echo
  pull_one_echo product objects d h = rw h refl

  pull_items_echoes :
      (products : List Product) (objects : Objects) (d : Desk PullReport W)
      → All (λ p. is_echo (remote_modified p) (get p.product_id objects) ≡ true) products
      → pull_items c products (objects, d) ≡ (ok tt, (objects, echoed (length products) d))
  unfolding pull_items
  pull_items_echoes [] objects d h =
      ap (λ n. (ok tt, (objects, record d { report = record d.report { echoes = n } })))
        (omega arith)
  pull_items_echoes (product ∷ products) objects d h =
      ap (resume (λ _. pull_items c products)) (pull_one_echo product objects d h.0)
      ∙ pull_items_echoes products objects (echoed 1 d) h.1
      ∙ ap (λ n. (ok tt, (objects, record d { report = record d.report { echoes = n } })))
          (omega arith)

  -- A page on which the last link with the remote id of each product has that product's time of
  -- modification as its remote hash is all echoes: the callback is not called, the links, the
  -- sync state and the outside world stay as they are, and each product counts as an echo.
  pub handle_page-Quiet :
      (products : List Product) (d : Desk PullReport W)
      → Quiet products d.links
      → handle_page c products d ≡ (
        ok tt,
        record d {
          report = record d.report {
            pages = d.report.pages + 1;
            echoes = d.report.echoes + length products;
          };
        },
      )
  unfolding handle_page
  handle_page-Quiet products d h =
      let counted = record d { report = record d.report { pages = d.report.pages + 1 } } in
      ap (λ r. (r.0, r.1.1))
        (pull_items_echoes products (by_remote products d.links []) counted
          (echo_objects products products d.links (λ id m. m) h))

  -- What the callback raises on a product that is no echo counts as a failure where its text is not
  -- empty. Where the text is empty the product counts as created or updated.
  pub pull_one_raised :
      (product : Product) (objects : Objects) (d : Desk PullReport W) (e : Exn)
      → let link = get product.product_id objects in
        (c.on_item product link d.outside).0 ≡ raise e
        → is_echo (remote_modified product) link ≡ false
        → let r = (pull_one c product (objects, d)).1.1.report in
          (truthy (text_of e) ≡ true → r.failed ≡ d.report.failed + 1)
          × (truthy (text_of e) ≡ false
              → (r.failed ≡ d.report.failed)
                × (r.created + r.updated ≡ d.report.created + d.report.updated + 1))
  unfolding pull_one
  pull_one_raised product objects d e raised fresh =
      let link = get product.product_id objects in
      let w' = (c.on_item product link d.outside).1 in
      rw (fresh, raised)
        (raised_counts c.duplicate (c.now w') product e link (objects, record d { outside = w' }))
