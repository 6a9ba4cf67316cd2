-- ===== src/Saved/Owners.antt =====
-- What the requests of savedfilter/service.go do to the saved filters of each user.
use Prim.Native.Nat.{max}
use backend_pkg.Common.{
  ℕ, ◌≤◌, ◌<◌, ◌≡◌, ◌≢◌, refl, sym, ap, subst, ◌∙◌, ◌⊎◌, inl, inr, Bool, true, false, List, [], ◌∷◌,
  ◌++◌, Bytes, ◌=ᵇ◌, =ᵇ→eq, =ᵇ-nil, ◌||◌, ◌==◌, ◌&&◌, ==→eq, leb, Option, none, some, length, keep,
  Bool-cases, arith,
}
use backend_pkg.Auth.Actor.{
  Uuid, UserClaims, Context, Got, not_found, got, get_actor, is_super_admin, claims_company,
}
use backend_pkg.Query.Tenant.{
  unchanged, company_only, scope_of, scope_of_actor, scope_of_claims, clause,
}
use backend_pkg.Query.Tenant.Hooks.{Hooked, proceeds, fails, panics, found_actor}
use backend_pkg.Query.Tenant.Hooks.Company.{
  CompanyBase, nil_uuid, before_create, CompanyOf, before_create_sound,
}
use backend_pkg.Saved.Repository.{SavedFilter, is_of, is_counted, scoped, FilterRepository}
use backend_pkg.Saved.{
  max_filters_per_user, CallerUser, nobody, crash, user, caller, check_ownership, owner_check,
  if_owned, WriteRequest, create_request, update_request, pin_request, delete_request, handle,
  Reply, Failure, access_denied, CreateInput, new_filter, changed, created, within_max,
  create_hooked, create_for, stored_as, pin, dropped, owned_or, create, update_filter, set_pinned,
  delete_filter,
}

abbrev pub size : Uuid → Bytes → List SavedFilter → ℕ
size c e fs = length (keep (is_of c e) fs)

size-put :
    (c : Uuid) (e : Bytes) (xs ys : List SavedFilter) (f g : SavedFilter)
    → g.company_id ≡ f.company_id
    → g.entity ≡ f.entity
    → size c e (xs ++ (f ∷ ys)) ≡ size c e (xs ++ (g ∷ ys))
size-put c e [] ys f g company same =
    let alike : is_of c e g ≡ is_of c e f =
      ap (λ k. k == c && g.entity =ᵇ e) company ∙ ap (λ k. f.company_id == c && k =ᵇ e) same in
    ground arith
size-put c e (x ∷ xs) ys f g company same =
    let rest = size-put c e xs ys f g company same in ground arith

size-cut :
    (c : Uuid) (e : Bytes) (xs ys : List SavedFilter) (g : SavedFilter)
    → size c e (xs ++ ys) ≤ size c e (xs ++ (g ∷ ys))
size-cut c e [] ys g = ground arith
size-cut c e (x ∷ xs) ys g = let rest = size-cut c e xs ys g in ground arith

claims_scope :
    (table : Bytes) (o : Option UserClaims) (c : Uuid)
    → table ≢ []
    → claims_company o ≡ some c
    → scope_of_claims true scoped table o ≡ company_only table c
unfolding scope_of_claims clause
claims_scope table none c named h = cc
claims_scope table (some k) c named h =
    let blank : table =ᵇ [] ≡ false = =ᵇ-nil table named in rw (h, blank) refl

got_scope :
    (table : Bytes) (o : Got) (c : Uuid)
    → table ≢ []
    → CompanyOf (found_actor o) c
    → (scope_of_actor true scoped table o ≡ unchanged)
      ⊎ (scope_of_actor true scoped table o ≡ company_only table c)
unfolding scope_of_actor
got_scope table not_found c named h = inl refl
got_scope table (got none) c named h = inl refl
got_scope table (got (some a)) c named (guest, company) =
    elim (Bool-cases (a.is_system || is_super_admin a)) [
      | inl above ↦ rw above (inl refl)
      | inr below ↦ rw below (inr (claims_scope table a.claims c named company))
    ]

-- A row that a caller may create is in a company whose rows the caller's count finds.
created_scope :
    (table : Bytes) (ctx : Context) (b : CompanyBase)
    → table ≢ []
    → before_create (record { company_id = nil_uuid }) ctx ≡ proceeds b
    → (scope_of true scoped table ctx ≡ unchanged)
      ⊎ (scope_of true scoped table ctx ≡ company_only table b.company_id)
unfolding scope_of
created_scope table ctx b named h =
    let (some_company, kept, filled) =
      before_create_sound (record { company_id = nil_uuid }) b ctx h in
    got_scope table (get_actor ctx) b.company_id named (filled refl)

counted_size :
    (c : Uuid) (e : Bytes) (p : SavedFilter → Bool) (fs : List SavedFilter)
    → ((f : SavedFilter) → is_of c e f ≡ true → p f ≡ true)
    → size c e fs ≤ length (keep p fs)
counted_size c e p [] h = omega arith
counted_size c e p (f ∷ fs) h = let rest = counted_size c e p fs h in let here = h f in ground arith

pub owner_of : (c : CallerUser) (f : SavedFilter) → owner_check c f ≡ none → c ≡ user f.user_id
owner_of nobody f h = cc
owner_of crash f h = cc
owner_of (user u) f h = elim (Bool-cases (f.user_id == u)) [
  | inl e ↦ ap user (sym (==→eq f.user_id u e))
  | inr e ↦ let wrong : some access_denied ≡ none = rw e at h in cc
]

module _ (repo : FilterRepository) (ctx : Context) where
  open repo use {Store, owned, table, has_table}

  abbrev find : Store → Uuid → Option SavedFilter
  find = repo.find ctx

  abbrev update : Store → SavedFilter → Store × Bool
  update = repo.update ctx

  abbrev delete : Store → Uuid → Store × Bool
  delete = repo.delete ctx

  abbrev insert : Store → SavedFilter → Store × Option Uuid
  insert = repo.create ctx

  -- The rows of the user are as before; or the caller is the user, and they are no more than before or
  -- than the maximum.
  abbrev pub Keeps : CallerUser → Store → Store → Uuid → Type 0
  Keeps c s t u =
      (owned t u ≡ owned s u)
      ⊎ ((c ≡ user u)
          × ((k : Uuid) (e : Bytes) → size k e (owned t u) ≤ max 10 (size k e (owned s u))))

  -- An operation on the rows of one user, and what it does to those of `u`.
  decided-Keeps :
      (s t : Store) (w u : Uuid)
      → ((k : Uuid) (e : Bytes) → size k e (owned t w) ≤ max 10 (size k e (owned s w)))
      → (w ≢ u → owned t u ≡ owned s u)
      → Keeps (user w) s t u
  decided-Keeps s t w u own other = elim (Bool-cases (w == u)) [
    | inl e ↦
        let same = ==→eq w u e in
        inr (
          ap user same,
          subst (λ v. (k : Uuid) (e : Bytes) → size k e (owned t v) ≤ max 10 (size k e (owned s v)))
              same own,
        )
    | inr e ↦ inl (other (λ same. ground arith))
  ]

  update-Keeps :
      (s : Store) (f g : SavedFilter) (u : Uuid)
      → find s f.id ≡ some g
      → g.user_id ≡ f.user_id
      → g.company_id ≡ f.company_id
      → g.entity ≡ f.entity
      → Keeps (user f.user_id) s (update s f).0 u
  update-Keeps s f g u found same company entity = elim (Bool-cases (update s f).1) [
    | inl ok ↦
        let (xs, ys, before, after) = repo.update-owned ctx s f g found same ok in
        decided-Keeps s (update s f).0 f.user_id u
          (λ k e. rw (before, after) (omega (arith, size-put k e xs ys f g company entity)))
          (repo.update-other ctx s f g u found same)
    | inr bad ↦ inl (repo.update-error ctx s f u bad)
  ]

  delete-Keeps :
      (s : Store) (i : Uuid) (g : SavedFilter) (u : Uuid)
      → find s i ≡ some g
      → Keeps (user g.user_id) s (delete s i).0 u
  delete-Keeps s i g u found = elim (Bool-cases (delete s i).1) [
    | inl ok ↦
        let (xs, ys, before, after) = repo.delete-owned ctx s i g found ok in
        decided-Keeps s (delete s i).0 g.user_id u
          (λ k e. rw (before, after) (omega (arith, size-cut k e xs ys g)))
          (repo.delete-other ctx s i g u found)
    | inr bad ↦ inl (repo.delete-error ctx s i u bad)
  ]

  owned_or-Keeps :
      {A : Type 0} (c : CallerUser) (f : SavedFilter) (o : Option Failure) (s : Store)
      (next : SavedFilter → Store × Reply A) (u : Uuid)
      → (o ≡ none → Keeps c s (next f).0 u)
      → Keeps c s (owned_or repo f o s next).0 u
  owned_or-Keeps c f none s next u h = h refl
  owned_or-Keeps c f (some e) s next u h = inl refl

  if_owned-Keeps :
      {A : Type 0} (o : Option SavedFilter) (s : Store) (next : SavedFilter → Store × Reply A)
      (u : Uuid)
      → ((g : SavedFilter) → o ≡ some g → Keeps (user g.user_id) s (next g).0 u)
      → Keeps (caller ctx) s (if_owned repo ctx o s next).0 u
  if_owned-Keeps none s next u h = inl refl
  if_owned-Keeps (some g) s next u h =
      owned_or-Keeps (caller ctx) g (check_ownership ctx g) s next u (λ e.
        let own : caller ctx ≡ user g.user_id =
          owner_of (caller ctx) g (unfold check_ownership in e) in
        subst (λ c. Keeps c s (next g).0 u) (sym own) (h g refl))

  store_of-stored_as : (f : SavedFilter) (p : Store × Bool) → (stored_as repo f p).0 ≡ p.0
  store_of-stored_as f (s, true) = refl
  store_of-stored_as f (s, false) = refl

  store_of-dropped : (p : Store × Bool) → (dropped repo p).0 ≡ p.0
  store_of-dropped (s, true) = refl
  store_of-dropped (s, false) = refl

  -- A row that is read and written back under its key, for its user and its entity.
  rewrite-Keeps :
      (s : Store) (i : Uuid) (f g : SavedFilter) (u : Uuid)
      → find s i ≡ some g
      → g.id ≡ f.id
      → g.user_id ≡ f.user_id
      → g.company_id ≡ f.company_id
      → g.entity ≡ f.entity
      → Keeps (user g.user_id) s (stored_as repo f (update s f)).0 u
  rewrite-Keeps s i f g u found id same company entity =
      let key : i ≡ f.id = sym (repo.find-owned ctx s i g found).0 ∙ id in
      let kept =
        update-Keeps s f g u (subst (λ k. find s k ≡ some g) key found) same company entity in
      subst (λ t. Keeps (user g.user_id) s t u) (sym (store_of-stored_as f (update s f)))
        (subst (λ w. Keeps (user w) s (update s f).0 u) (sym same) kept)

  pin-Keeps :
      (s : Store) (i : Uuid) (pinned : Bool) (g : SavedFilter) (u : Uuid)
      → find s i ≡ some g
      → Keeps (user g.user_id) s (pin repo ctx pinned s g).0 u
  pin-Keeps s i true g u found = elim (Bool-cases g.pinned) [
    | inl e ↦ rw e (inl refl)
    | inr e ↦ simp e (rewrite-Keeps s i (record g { pinned = true }) g u found refl refl refl refl)
  ]
  pin-Keeps s i false g u found = elim (Bool-cases g.pinned) [
    | inl e ↦ simp e (rewrite-Keeps s i (record g { pinned = false }) g u found refl refl refl refl)
    | inr e ↦ rw e (inl refl)
  ]

  created-Keeps :
      (s : Store) (f : SavedFilter) (n : ℕ) (o : Option Uuid) (u : Uuid)
      → (insert s f).1 ≡ o
      → size f.company_id f.entity (owned s f.user_id) ≤ n
      → n < 10
      → Keeps (user f.user_id) s (insert s f).0 u
  created-Keeps s f n none u e count few = inl (repo.create-error ctx s f u e)
  created-Keeps s f n (some i) u e count few =
      decided-Keeps s (insert s f).0 f.user_id u
        (λ k d.
          rw (repo.create-owned ctx s f i e)
            (elim (Bool-cases (f.company_id == k && f.entity =ᵇ d)) [
              | inl same ↦
                  let company = ==→eq f.company_id k (ground arith) in
                  let entity = =ᵇ→eq f.entity d (ground arith) in
                  let here =
                    ap (λ j. size j f.entity (owned s f.user_id)) company
                    ∙ ap (λ j. size k j (owned s f.user_id)) entity in
                  rw same (omega (arith, here, count))
              | inr other ↦ rw other (omega arith)
            ]))
        (repo.create-other ctx s f u)

  store_of-created : (f : SavedFilter) (p : Store × Option Uuid) → (created repo f p).0 ≡ p.0
  store_of-created f (s, none) = refl
  store_of-created f (s, some i) = refl

  -- What the caller's query counted bounds the rows of the company that the new row will be in.
  counted-company :
      (s : Store) (w : Uuid) (e : Bytes) (n : ℕ) (b : CompanyBase)
      → repo.count_by_user_and_entity ctx s w e ≡ some n
      → before_create (record { company_id = nil_uuid }) ctx ≡ proceeds b
      → size b.company_id e (owned s w) ≤ n
  counted-company s w e n b counted hooked =
      let total = repo.count-owned ctx s w e n counted in
      let found = counted_size b.company_id e (is_counted table ctx e) (owned s w) (λ f h.
        elim (created_scope table ctx b has_table hooked) [
          | inl all ↦ rw all (ground arith)
          | inr own ↦ rw own h
        ]) in
      omega (arith, total, found)

  hooked-Keeps :
      (w : Uuid) (input : CreateInput) (s : Store) (n : ℕ) (h : Hooked CompanyBase) (u : Uuid)
      → repo.count_by_user_and_entity ctx s w input.entity ≡ some n
      → n < 10
      → before_create (record { company_id = nil_uuid }) ctx ≡ h
      → Keeps (user w) s (create_hooked repo ctx (new_filter w input) s h).0 u
  hooked-Keeps w input s n (fails x) u e few hooked = inl refl
  hooked-Keeps w input s n panics u e few hooked = inl refl
  hooked-Keeps w input s n (proceeds b) u e few hooked =
      let f : SavedFilter = record (new_filter w input) { company_id = b.company_id } in
      subst (λ t. Keeps (user w) s t u) (sym (store_of-created f (insert s f)))
        (created-Keeps s f n (insert s f).1 u refl (counted-company s w input.entity n b e hooked)
          few)

  within_max-Keeps :
      (w : Uuid) (input : CreateInput) (s : Store) (o : Option ℕ) (u : Uuid)
      → repo.count_by_user_and_entity ctx s w input.entity ≡ o
      → Keeps (user w) s (within_max repo ctx w input s o).0 u
  within_max-Keeps w input s none u e = inl refl
  within_max-Keeps w input s (some n) u e = elim (Bool-cases (leb max_filters_per_user n)) [
    | inl full ↦ rw full (inl refl)
    | inr room ↦ rw room (
        hooked-Keeps w input s n (before_create (record { company_id = nil_uuid }) ctx) u e
          (ground arith) refl)
  ]

  create_for-Keeps :
      (c : CallerUser) (input : CreateInput) (s : Store) (u : Uuid)
      → Keeps c s (create_for repo ctx c input s).0 u
  create_for-Keeps nobody input s u = inl refl
  create_for-Keeps crash input s u = inl refl
  create_for-Keeps (user w) input s u =
      within_max-Keeps w input s (repo.count_by_user_and_entity ctx s w input.entity) u refl

  pub handle-Keeps :
      (r : WriteRequest) (s : Store) (u : Uuid) → Keeps (caller ctx) s (handle repo ctx r s) u
  unfolding handle create update_filter set_pinned delete_filter
  handle-Keeps (create_request input) s u = create_for-Keeps (caller ctx) input s u
  handle-Keeps (update_request id input) s u =
      if_owned-Keeps (find s id) s
        (λ f. stored_as repo (changed input f) (update s (changed input f))) u
        (λ g found. rewrite-Keeps s id (changed input g) g u found refl refl refl refl)
  handle-Keeps (pin_request id pinned) s u =
      if_owned-Keeps (find s id) s (pin repo ctx pinned s) u
        (λ g found. pin-Keeps s id pinned g u found)
  handle-Keeps (delete_request id) s u =
      if_owned-Keeps (find s id) s (λ f. dropped repo (delete s id)) u
        (λ g found.
          subst (λ t. Keeps (user g.user_id) s t u) (sym (store_of-dropped (delete s id)))
            (delete-Keeps s id g u found))
