-- ===== src/Saved/Runs.antt =====
-- Whom the requests of savedfilter/service.go serve: runs of requests, and reading one row.
use backend_pkg.Common.{
  ◌≤◌, ◌≡◌, ◌≢◌, refl, sym, ap, ◌∙◌, inl, inr, List, [], ◌∷◌, Bytes, Option, none, some, Any, All,
  arith, ℤ,
}
use backend_pkg.Auth.Actor.{Uuid, Context}
use backend_pkg.Saved.Repository.{SavedFilter, FilterRepository}
use backend_pkg.Saved.{
  max_filters_per_user, user, caller, check_ownership, if_owned, owned_or, WriteRequest, handle,
  run, Reply, done, Failure, get_by_id, CountFunc, get_count_func, counted_by, with_count,
}
use backend_pkg.Saved.Owners.{size, handle-Keeps, owner_of}

module _ (repo : FilterRepository) where
  open repo use {Store, owned, find, find-owned}

  -- Whatever requests run, with whatever errors of the database: the rows of a user who made none of
  -- them are as before.
  pub run-others :
      (rs : List (Context × WriteRequest)) (s : Store) (u : Uuid)
      → All (λ r. caller r.0 ≢ user u) rs
      → owned (run repo rs s) u ≡ owned s u
  unfolding run
  run-others [] s u h = refl
  run-others ((ctx, r) ∷ rs) s u (stranger, h) = elim (handle-Keeps repo ctx r s u) [
    | inl same ↦ run-others rs (handle repo ctx r s) u h ∙ same
    | inr (own, few) ↦ absurd (stranger own)
  ]

  -- No user has more filters of one entity in one company than the maximum.
  abbrev pub IsWithin : Store → Type 0
  IsWithin s = (u c : Uuid) (e : Bytes) → size c e (owned s u) ≤ max_filters_per_user

  handle-IsWithin :
      (ctx : Context) (r : WriteRequest) (s : Store) → IsWithin s → IsWithin (handle repo ctx r s)
  handle-IsWithin ctx r s within u c e = elim (handle-Keeps repo ctx r s u) [
    | inl same ↦ rw same (within u c e)
    | inr (own, few) ↦ omega (arith, few c e, within u c e)
  ]

  -- If no user has more than ten filters of one entity in one company, none has more after any requests,
  -- which run one after another.
  pub run-IsWithin :
      (rs : List (Context × WriteRequest)) (s : Store) → IsWithin s → IsWithin (run repo rs s)
  unfolding run
  run-IsWithin [] s within = within
  run-IsWithin ((ctx, r) ∷ rs) s within =
      run-IsWithin rs (handle repo ctx r s) (handle-IsWithin ctx r s within)

  owned_or-done :
      {A : Type 0} (f : SavedFilter) (o : Option Failure) (s : Store)
      (next : SavedFilter → Store × Reply A) (a : A)
      → (owned_or repo f o s next).1 ≡ done a
      → (o ≡ none) × ((next f).1 ≡ done a)
  owned_or-done f none s next a h = (refl, h)
  owned_or-done f (some e) s next a h = cc

  if_owned-done :
      {A : Type 0} (ctx : Context) (o : Option SavedFilter) (s : Store)
      (next : SavedFilter → Store × Reply A) (a : A)
      → (if_owned repo ctx o s next).1 ≡ done a
      → (g : SavedFilter) × (o ≡ some g) × (caller ctx ≡ user g.user_id) × ((next g).1 ≡ done a)
  if_owned-done ctx none s next a h = cc
  if_owned-done ctx (some g) s next a h =
      let (ok, e) = owned_or-done g (check_ownership ctx g) s next a h in
      (g, refl, owner_of (caller ctx) g (unfold check_ownership in ok), e)

  with_count-done :
      (g f : SavedFilter) (n : ℤ) (o : Option ℤ)
      → with_count repo g o ≡ done (f, n)
      → (g ≡ f) × (o ≡ some n)
  with_count-done g f n none h = cc
  with_count-done g f n (some m) h = (cc, cc)

  -- A saved filter that is given to a caller is the row with the id that was asked for, and the caller's
  -- own; the count is that of the function of its entity, 0 without one.
  get_by_id_sound :
      (fns : List (Bytes × CountFunc)) (ctx : Context) (i : Uuid) (s : Store) (f : SavedFilter)
      (n : ℤ)
      → (get_by_id repo fns ctx i s).1 ≡ done (f, n)
      → (caller ctx ≡ user f.user_id)
        × (f.id ≡ i)
        × Any (λ g. g ≡ f) (owned s f.user_id)
        × (counted_by (get_count_func f.entity fns) f.filter ≡ some n)
  unfolding get_by_id
  get_by_id_sound fns ctx i s f n h =
      let (g, found, own, e) =
        if_owned-done ctx (find ctx s i) s
          (λ k. (s, with_count repo k (counted_by (get_count_func k.entity fns) k.filter))) (f, n)
          h in
      let (same, counted) =
        with_count-done g f n (counted_by (get_count_func g.entity fns) g.filter) e in
      let (key, row) = find-owned ctx s i f (found ∙ ap some same) in
      (
        own ∙ ap (λ k. user k.user_id) same,
        key,
        row,
        ap (λ k. counted_by (get_count_func k.entity fns) k.filter) (sym same) ∙ counted,
      )
