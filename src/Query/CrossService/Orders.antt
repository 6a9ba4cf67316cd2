-- ===== src/Query/CrossService/Orders.antt =====
-- The order in which the calls of tmsdb/cross_service.go end does not matter.
use backend_pkg.Common.{
  ℕ, zero, suc, ◌==◌, ◌≡◌, refl, ap, ◌∙◌, Bool, true, false, ◌||◌, List, [], ◌∷◌, if◌then◌else◌,
  Option, none, some, is_some, get_or, arith,
}
use backend_pkg.Query.Gorm.{Gorm}
use backend_pkg.Query.Builder.{FilterBuilder}
use backend_pkg.Query.CrossService.{
  CrossServiceFilter, CrossServiceResult, blank_result, call_of, result_at, write_at, end_call,
  end_calls, blank_results, narrow_by_all, apply_cross_service_batch,
}

abbrev pub Filters : Type 0
Filters = List (Option CrossServiceFilter)

-- What every call has written once it has ended.
abbrev pub settled : Filters → List CrossServiceResult
settled [] = []
settled (f ∷ fs) = get_or blank_result (call_of f) ∷ settled fs

-- The results when the calls at some places have ended.
abbrev mixed : Filters → (ℕ → Bool) → List CrossServiceResult
mixed [] ended = []
mixed (f ∷ fs) ended =
    (if ended 0 then get_or blank_result (call_of f) else blank_result)
    ∷ mixed fs (λ i. ended (suc i))

mixed_cong : (fs : Filters) (a b : ℕ → Bool) → ((i : ℕ) → a i ≡ b i) → mixed fs a ≡ mixed fs b
mixed_cong [] a b h = refl
mixed_cong (f ∷ fs) a b h =
    let tail = mixed_cong fs (λ i. a (suc i)) (λ i. b (suc i)) (λ i. h (suc i)) in
    rw (h 0, tail) refl

abbrev also : ℕ → (ℕ → Bool) → ℕ → Bool
also i ended j = j == i || ended j

call_at-suc :
    (r : Option CrossServiceResult) (i : ℕ) (x : CrossServiceResult) (rs : List CrossServiceResult)
    → elim r [ none ↦ x ∷ rs | some y ↦ write_at (suc i) y (x ∷ rs) ]
      ≡ x ∷ elim r [ none ↦ rs | some y ↦ write_at i y rs ]
unfolding write_at
call_at-suc none i x rs = refl
call_at-suc (some y) i x rs = refl

as_settled :
    (r : Option CrossServiceResult) (ended : Bool)
    → (is_some r ≡ true → ended ≡ true)
    → (if ended then get_or blank_result r else blank_result) ≡ get_or blank_result r
as_settled none true all = refl
as_settled none false all = refl
as_settled (some y) ended all = rw (all refl) refl

call_at-first :
    (r : Option CrossServiceResult) (first : CrossServiceResult) (rs : List CrossServiceResult)
    → (is_some r ≡ false → first ≡ get_or blank_result r)
    → elim r [ none ↦ first ∷ rs | some y ↦ write_at 0 y (first ∷ rs) ] ≡ get_or blank_result r ∷ rs
unfolding write_at
call_at-first none first rs kept = ap (λ x. x ∷ rs) (kept refl)
call_at-first (some y) first rs kept = refl

kept_blank :
    (r : Option CrossServiceResult) (ended : Bool)
    → is_some r ≡ false
    → (if ended then get_or blank_result r else blank_result) ≡ get_or blank_result r
kept_blank r ended e = as_settled r ended (λ t. absurd (cc))

not_first : (i : ℕ) (ended : ℕ → Bool) → ended 0 ≡ also (suc i) ended 0
not_first i ended = ground arith

end_call-mixed :
    (fs : Filters) (i : ℕ) (ended : ℕ → Bool)
    → end_call fs i (mixed fs ended) ≡ mixed fs (also i ended)
unfolding result_at
end_call-mixed [] i ended = refl
end_call-mixed (f ∷ fs) zero ended =
    call_at-first (call_of f) (if ended 0 then get_or blank_result (call_of f) else blank_result)
      (mixed fs (λ i. ended (suc i))) (kept_blank (call_of f) (ended 0))
    ∙ ap (λ rs. get_or blank_result (call_of f) ∷ rs)
        (mixed_cong fs (λ i. ended (suc i)) (λ i. also 0 ended (suc i)) (λ i. ground arith))
end_call-mixed (f ∷ fs) (suc i) ended =
    let first = if ended 0 then get_or blank_result (call_of f) else blank_result in
    call_at-suc (result_at fs i) i first (mixed fs (λ j. ended (suc j)))
    ∙ ap (λ rs. first ∷ rs)
        (end_call-mixed fs i (λ j. ended (suc j))
          ∙ mixed_cong fs (also i (λ j. ended (suc j))) (λ j. also (suc i) ended (suc j))
              (λ j. ground arith))
    ∙ ap
        (λ b.
          (if b then get_or blank_result (call_of f) else blank_result)
          ∷ mixed fs (λ j. also (suc i) ended (suc j)))
        (not_first i ended)

abbrev pub is_in : List ℕ → ℕ → Bool
is_in [] i = false
is_in (j ∷ js) i = i == j || is_in js i

end_calls-mixed :
    (fs : Filters) (order : List ℕ) (ended : ℕ → Bool)
    → end_calls fs order (mixed fs ended) ≡ mixed fs (λ i. is_in order i || ended i)
unfolding end_calls
end_calls-mixed fs [] ended = refl
end_calls-mixed fs (i ∷ order) ended =
    ap (end_calls fs order) (end_call-mixed fs i ended)
    ∙ end_calls-mixed fs order (also i ended)
    ∙ mixed_cong fs (λ j. is_in order j || also i ended j) (λ j. is_in (i ∷ order) j || ended j)
        (λ j. ground arith)

mixed_none : (fs : Filters) → blank_results fs ≡ mixed fs (λ i. false)
mixed_none [] = refl
mixed_none (f ∷ fs) = ap (λ rs. blank_result ∷ rs) (mixed_none fs)

mixed_all :
    (fs : Filters) (ended : ℕ → Bool)
    → ((i : ℕ) → is_some (result_at fs i) ≡ true → ended i ≡ true)
    → mixed fs ended ≡ settled fs
unfolding result_at
mixed_all [] ended all = refl
mixed_all (f ∷ fs) ended all =
    let tail = mixed_all fs (λ i. ended (suc i)) (λ i. all (suc i)) in
    let first = as_settled (call_of f) (ended 0) (all 0) in rw (first, tail) refl

-- The results of a batch do not depend on the order in which its calls end: in whatever order that has
-- the place of each filter with a call, each place holds what its own call answered, the places without a
-- call are blank, and the results narrow the builder in the order of the filters.
pub apply_cross_service_batch_order :
    (g : Gorm) (order : List ℕ) (fb : FilterBuilder g) (fs : Filters)
    → ((i : ℕ) → is_some (result_at fs i) ≡ true → is_in order i ≡ true)
    → apply_cross_service_batch g order fb fs ≡ (narrow_by_all g fb (settled fs), settled fs)
unfolding apply_cross_service_batch
apply_cross_service_batch_order g order fb fs all =
    let ended =
      ap (end_calls fs order) (mixed_none fs)
      ∙ end_calls-mixed fs order (λ i. false)
      ∙ mixed_all fs (λ i. is_in order i || false) (λ i h. rw (all i h) refl) in
    ap (λ rs. (narrow_by_all g fb rs, rs)) ended
