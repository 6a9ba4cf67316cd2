-- ===== src/Toll/Folder.antt =====
-- client/toll/sftp.go: which files of a folder are taken, and the download of one. The connection and
-- `path.Join` are parameters; what does not come of a transfer is no error text.
use backend_pkg.Common.{
  ℕ, zero, suc, ◌*◌, ◌^◌, ◌+◌, ◌≤◌, ◌≡◌, ◌≢◌, refl, sym, ap, ◌∙◌, Bool, true, false, ◌||◌, List, [],
  ◌∷◌, Bytes, codes, ◌=ᵇ◌, =ᵇ_refl, =ᵇ_iff, ◌==◌, ltb, if◌then◌else◌, Option, none, some,
  trim_space, to_lower, has_prefix, length, take, All, All-append, subst, arith, Bool-cases, inl,
  inr,
}
use mathlib.Core.List.{reverse, reverse-cons}

abbrev pub slash : ℕ
slash = b'/'

-- `path.Base`: without the slashes at its end, what stands behind the last slash.
drop_slashes : Bytes → Bytes
drop_slashes [] = []
drop_slashes (c ∷ s) = let rest = drop_slashes s in if c == slash then rest else c ∷ s

until_slash : Bytes → Bytes
until_slash [] = []
until_slash (c ∷ s) = let rest = until_slash s in if c == slash then [] else c ∷ rest

abbrev or_root : Bytes → Bytes
or_root [] = slash ∷ []
or_root (c ∷ s) = c ∷ s

unfoldable pub base : Bytes → Bytes
unfolding drop_slashes until_slash
base name =
    if name =ᵇ [] then codes "." else or_root (reverse (until_slash (drop_slashes (reverse name))))

abbrev is_no_file : Bytes → Bool
is_no_file b = b =ᵇ [] || (b =ᵇ codes "." || (b =ᵇ codes "/" || b =ᵇ codes ".."))

unfoldable has_accepted_ext : Bytes → List Bytes → Bool
unfolding has_prefix
has_accepted_ext name [] = true
has_accepted_ext name (e ∷ []) = has_prefix (reverse (to_lower name)) (reverse e)
has_accepted_ext name (e ∷ (f ∷ es)) =
    has_prefix (reverse (to_lower name)) (reverse e) || has_accepted_ext name (f ∷ es)

abbrev max_remote_file_size : ℕ
max_remote_file_size = 64 * 2 ^ 20

pub data Fetched : Type 0 where
  invalid_name not_opened too_large : Fetched
  content_of : Bytes → Fetched

-- `limit` is max_remote_file_size; one more byte is read to notice a longer file.
within_limit : ℕ → Bytes → Fetched
within_limit limit content =
    let read = take (limit + 1) content in
    if ltb limit (length read) then too_large else content_of read

-- `open_file` is the content of the file at a path.
module _ (open_file : Bytes → Option Bytes) (join : Bytes → Bytes → Bytes) (limit : ℕ) where
  opened : Option Bytes → Fetched
  unfolding within_limit
  opened none = not_opened
  opened (some content) = within_limit limit content

  unfoldable pub fetch_within : Bytes → Bytes → Fetched
  unfolding opened base trim_space
  fetch_within dir name =
      let b = base (trim_space name) in
      if is_no_file b then invalid_name else opened (open_file (join dir b))

  abbrev IsPlain : Bytes → Type 0
  IsPlain b = All (λ c. (c == slash) ≡ false) b

  until_slash-IsPlain : (s : Bytes) → IsPlain (until_slash s)
  unfolding until_slash
  until_slash-IsPlain [] = tt
  until_slash-IsPlain (c ∷ s) = elim (Bool-cases (c == slash)) [
    | inl e ↦ rw e tt
    | inr e ↦ rw e (e, until_slash-IsPlain s)
  ]

  reverse-IsPlain : (s : Bytes) → IsPlain s → IsPlain (reverse s)
  reverse-IsPlain [] h = tt
  reverse-IsPlain (c ∷ s) (e, h) =
      subst IsPlain (sym (reverse-cons c s))
        (All-append (λ c. (c == slash) ≡ false) (reverse s) (c ∷ []) (reverse-IsPlain s h) (e, tt))

  or_root-IsPlain : (s : Bytes) → IsPlain s → or_root s =ᵇ codes "/" ≡ false → IsPlain (or_root s)
  or_root-IsPlain [] h e = let bad : true ≡ false = sym (=ᵇ_refl (codes "/")) ∙ e in cc
  or_root-IsPlain (c ∷ s) h e = h

  base-IsPlain : (name : Bytes) → base name =ᵇ codes "/" ≡ false → IsPlain (base name)
  unfolding base
  base-IsPlain name e = elim (Bool-cases (name =ᵇ [])) [
    | inl blank ↦ rw blank (refl, tt)
    | inr named ↦
        let s = until_slash (drop_slashes (reverse name)) in
        rw named (
          or_root-IsPlain (reverse s)
            (reverse-IsPlain s (until_slash-IsPlain (drop_slashes (reverse name)))) (rw named at e))
  ]

  differs : (b : Bytes) (t : Bytes) → b =ᵇ t ≡ false → b ≢ t
  differs b t e same = let bad : true ≡ false = sym ((=ᵇ_iff b t).1 same) ∙ e in cc

  -- What one more than the limit does not fill is the whole.
  take_short :
      (n : ℕ) (s : Bytes) → length (take (suc n) s) ≤ n → (take (suc n) s ≡ s) × (length s ≤ n)
  take_short n [] h = (refl, h)
  take_short zero (c ∷ s) h = absurd (omega arith)
  take_short (suc n) (c ∷ s) h =
      let (e, small) = take_short n s (omega arith) in (ap (λ t. c ∷ t) e, omega arith)

  within_limit-content :
      (s content : Bytes)
      → within_limit limit s ≡ content_of content
      → (s ≡ content) × (length content ≤ limit)
  unfolding within_limit
  within_limit-content s content h =
      let one : limit + 1 ≡ suc limit = omega arith in
      elim (Bool-cases (ltb limit (length (take (suc limit) s)))) [
        | inl large ↦ let wrong : too_large ≡ content_of content = rw (one, large) at h in cc
        | inr fits ↦
            let read : content_of (take (suc limit) s) ≡ content_of content = rw (one, fits) at h in
            let (whole, small) = take_short limit s (ground arith) in
            let same : s ≡ content = sym whole ∙ cc in
            (same, subst (λ t. length t ≤ limit) same small)
      ]

  opened-content :
      (o : Option Bytes) (content : Bytes)
      → opened o ≡ content_of content
      → (o ≡ some content) × (length content ≤ limit)
  unfolding opened
  opened-content none content h = cc
  opened-content (some s) content h =
      let (e, small) = within_limit-content s content h in (ap some e, small)

  -- A content that is fetched is the whole file of one name in the folder: the name has no slash and is
  -- none of those for a folder itself or the one above, and the content is within the limit.
  pub fetch_within_sound :
      (dir name content : Bytes)
      → fetch_within dir name ≡ content_of content
      → (b : Bytes) × IsPlain b
        × (b ≢ [])
        × (b ≢ codes ".")
        × (b ≢ codes "..")
        × (open_file (join dir b) ≡ some content)
        × (length content ≤ limit)
  unfolding fetch_within
  fetch_within_sound dir name content h =
      let b = base (trim_space name) in
      elim (Bool-cases (is_no_file b)) [
        | inl bad ↦ let wrong : invalid_name ≡ content_of content = rw bad at h in cc
        | inr fine ↦
            let (e, small) = opened-content (open_file (join dir b)) content (rw fine at h) in
            (
              b,
              base-IsPlain (trim_space name) (ground arith),
              differs b [] (ground arith),
              differs b (codes ".") (ground arith),
              differs b (codes "..") (ground arith),
              e,
              small,
            )
      ]

unfoldable pub fetch : (Bytes → Option Bytes) → (Bytes → Bytes → Bytes) → Bytes → Bytes → Fetched
unfolding fetch_within
fetch open_file join = fetch_within open_file join max_remote_file_size
