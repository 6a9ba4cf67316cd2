-- ===== src/Query/CrossService.antt =====
-- tmsdb/cross_service.go: filters on the rows of other services, which are asked for the ids that meet
-- them. What a service answers comes from outside, and so does the order in which the calls of a batch end.
pub mod Orders
use backend_pkg.Common.{
  ℕ, zero, suc, ◌≡◌, Bool, true, false, ◌&&◌, not, List, [], ◌∷◌, Bytes, codes, ◌=ᵇ◌, if◌then◌else◌,
  Option, none, some, is_some,
}
use backend_pkg.Query.Gorm.{Gorm}
use backend_pkg.Query.Builder.{FilterBuilder, in_ids}

-- A pointer to a filter may be nil, and so may its resolver and its remote filter: `ask` is what the
-- resolver answers to the filter, if both are there: the ids, and whether there is an error.
pub record CrossServiceFilter : Type 0 where
  pub local_field : Bytes
  pub ask : Option (List Bytes × Bool)

pub record CrossServiceResult : Type 0 where
  pub result_field : Bytes
  pub ids : List Bytes
  pub has_error : Bool

abbrev pub blank_result : CrossServiceResult
blank_result = record { result_field = []; ids = []; has_error = false }

abbrev answer_of : Bytes → List Bytes × Bool → CrossServiceResult
answer_of field (ids, failed) = record { result_field = field; ids = ids; has_error = failed }

-- What the call of a filter writes to its place, if there is a call.
abbrev pub call_of : Option CrossServiceFilter → Option CrossServiceResult
call_of none = none
call_of (some f) = elim f.ask [ none ↦ none | some a ↦ some (answer_of f.local_field a) ]

unfoldable pub result_at : List (Option CrossServiceFilter) → ℕ → Option CrossServiceResult
result_at [] i = none
result_at (f ∷ fs) zero = call_of f
result_at (f ∷ fs) (suc i) = result_at fs i

unfoldable pub write_at : ℕ → CrossServiceResult → List CrossServiceResult → List CrossServiceResult
write_at i r [] = []
write_at zero r (x ∷ xs) = r ∷ xs
write_at (suc i) r (x ∷ xs) = x ∷ write_at i r xs

-- One call ends: `results[idx] = …`.
abbrev pub end_call :
    List (Option CrossServiceFilter) → ℕ → List CrossServiceResult → List CrossServiceResult
end_call fs i rs = elim (result_at fs i) [ none ↦ rs | some r ↦ write_at i r rs ]

unfoldable pub end_calls :
    List (Option CrossServiceFilter) → List ℕ → List CrossServiceResult → List CrossServiceResult
unfolding result_at write_at
end_calls fs [] rs = rs
end_calls fs (i ∷ order) rs = end_calls fs order (end_call fs i rs)

abbrev pub blank_results : List (Option CrossServiceFilter) → List CrossServiceResult
blank_results [] = []
blank_results (f ∷ fs) = blank_result ∷ blank_results fs

module _ (g : Gorm) where
  apply_answer : FilterBuilder g → Bytes → List Bytes × Bool → FilterBuilder g × Bool
  apply_answer fb field (ids, failed) =
      if failed then (fb, false) else (in_ids g fb field ids, true)

  -- The builder, and whether there was no error.
  unfoldable pub apply_cross_service :
      FilterBuilder g → Option CrossServiceFilter → FilterBuilder g × Bool
  unfolding apply_answer
  apply_cross_service fb none = (fb, true)
  apply_cross_service fb (some f) = elim f.ask [
    | none ↦ (fb, true)
    | some a ↦ apply_answer fb f.local_field a
  ]

  unfoldable pub narrow_by : FilterBuilder g → CrossServiceResult → FilterBuilder g
  narrow_by fb r =
      if not r.has_error && not (r.result_field =ᵇ []) then in_ids g fb r.result_field r.ids else fb

  unfoldable pub narrow_by_all : FilterBuilder g → List CrossServiceResult → FilterBuilder g
  narrow_by_all fb [] = fb
  narrow_by_all fb (r ∷ rs) = narrow_by_all (narrow_by fb r) rs

  -- The calls of the batch end in the given order; then the results are applied in that of the filters.
  unfoldable pub apply_cross_service_batch :
      List ℕ
      → FilterBuilder g
      → List (Option CrossServiceFilter)
      → FilterBuilder g × List CrossServiceResult
  apply_cross_service_batch order fb fs =
      let results = end_calls fs order (blank_results fs) in (narrow_by_all fb results, results)
