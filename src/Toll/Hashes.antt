-- ===== src/Toll/Hashes.antt =====
-- A toll transaction of client/toll/toll.go, and HashRow and assignHashes of client/toll/normalize.go.
pub mod Distinct
use backend_pkg.Common.{
  ℕ, zero, suc, ◌+◌, ◌≡◌, List, [], ◌∷◌, ◌++◌, Bytes, codes, ◌==◌, if◌then◌else◌, Option, none,
  some, lookup, insert, get_or, itoa,
}
use backend_pkg.Toll.{TollLibrary}

pub data ReadType : Type 0 where
  read_transponder read_plate read_unknown : ReadType

abbrev pub ProviderType : Type 0
ProviderType = Bytes

abbrev hash_sep : ℕ
hash_sep = 0x1f

-- `strings.Join(parts, sep)`.
abbrev join_at : ℕ → List Bytes → Bytes
join_at sep [] = []
join_at sep (p ∷ []) = p
join_at sep (p ∷ (q ∷ ps)) = p ++ (sep ∷ join_at sep (q ∷ ps))

module _ (lib : TollLibrary) where
  open lib use {Decimal, Time, fixed_cents, day_text, instant_text, digest}

  pub record Row : Type 0 where
    pub row_number : ℕ
    pub post_date : Time
    pub invoice_date : Option Time
    pub entry_at : Option Time
    pub exit_at : Option Time
    pub source : Bytes
    pub agency : Bytes
    pub read_type : ReadType
    pub device_id : Bytes
    pub agency_ref : Bytes
    pub plate : Bytes
    pub truck_ref : Bytes
    pub entry_plaza : Bytes
    pub exit_plaza : Bytes
    pub class : Bytes
    pub miles : Bytes
    pub amount : Decimal
    pub hash : Bytes
    pub raw : List (Bytes × Bytes)

  abbrev exit_text : Option Time → Bytes
  exit_text none = []
  exit_text (some t) = instant_text t

  abbrev hash_parts : ProviderType → Row → Bytes → List Bytes
  hash_parts pt r occurrence =
      pt
      ∷ day_text r.post_date
      ∷ r.device_id
      ∷ r.agency_ref
      ∷ r.plate
      ∷ exit_text r.exit_at
      ∷ r.exit_plaza
      ∷ r.agency
      ∷ fixed_cents r.amount
      ∷ occurrence
      ∷ []

  unfoldable pub hash_row : ProviderType → Row → ℕ → Bytes
  hash_row pt r occurrence = digest (join_at hash_sep (hash_parts pt r (itoa occurrence)))

  unfoldable pub assign_from : ProviderType → List (Bytes × ℕ) → List Row → List Row
  assign_from pt seen [] = []
  assign_from pt seen (r ∷ rs) =
      let base = hash_row pt r 0 in
      let n = get_or 0 (lookup base seen) in
      record r { hash = if n == 0 then base else hash_row pt r n }
      ∷ assign_from pt (insert base (n + 1) seen) rs

  unfoldable pub assign_hashes : ProviderType → List Row → List Row
  unfolding assign_from
  assign_hashes pt rows = assign_from pt [] rows
