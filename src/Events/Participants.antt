-- ===== src/Events/Participants.antt =====
-- eventlog/events/participants.go: who took part in an event. An id is the number of its UUID, and
-- the nil UUID is 0.
use mathlib.Core.List.{append-nil, append_assoc}
use Prim.Native.Nat.{max}
use backend_pkg.Common.{
  suc, ltb, ℕ, ◌≡◌, ◌≢◌, refl, Bool, true, false, List, [], ◌∷◌, ◌++◌, Bytes, codes, ◌==◌, ◌=ᵇ◌,
  =ᵇ_refl, ◌||◌, if◌then◌else◌, arith, Option, none, some, keep, not, ◌&&◌, ap, ==→eq, ◌∙◌,
}

abbrev pub Uuid : Type 0
Uuid = ℕ

abbrev pub nil_uuid : Uuid
nil_uuid = 0

abbrev ParticipantRole : Type 0
ParticipantRole = Bytes

abbrev actor_role : ParticipantRole
actor_role = codes "ACTOR"

abbrev ParticipantKind : Type 0
ParticipantKind = Bytes

abbrev user_kind : ParticipantKind
user_kind = codes "user"

abbrev driver_kind : ParticipantKind
driver_kind = codes "driver"

pub record Participant : Type 0 where
  pub id : Uuid
  pub kind : ParticipantKind
  pub role : ParticipantRole

driver : Uuid → ParticipantRole → Participant
driver id role = record { id = id; kind = driver_kind; role = role }

pub has_actor : List Participant → Bool
has_actor [] = false
has_actor (p ∷ ps) = if p.role =ᵇ actor_role then true else has_actor ps

-- `none` is a nil pointer.
unfoldable pub with_actor : List Participant → Option Uuid → List Participant
with_actor ps none = ps
with_actor ps (some actor_id) =
    if actor_id == nil_uuid || has_actor ps
    then ps
    else record { id = actor_id; kind = user_kind; role = actor_role } ∷ ps

abbrev has_id : Uuid → List Uuid → Bool
has_id a [] = false
has_id a (b ∷ bs) = b == a || has_id a bs

-- The loop, with the set `seen` and the list `out`. An entry that is skipped leaves both.
ids_from : List Participant → List Uuid → List Uuid → List Uuid
ids_from [] seen out = out
ids_from (p ∷ ps) seen out =
    let skip = ids_from ps seen out in
    let take = ids_from ps (p.id ∷ seen) (out ++ (p.id ∷ [])) in
    if p.id == nil_uuid then skip else if has_id p.id seen then skip else take

participant_ids : List Participant → List Uuid
unfolding ids_from
participant_ids ps = ids_from ps [] []

abbrev pub actors : List Participant → ℕ
actors [] = 0
actors (p ∷ ps) = if p.role =ᵇ actor_role then suc (actors ps) else actors ps

has_actor-actors : (ps : List Participant) → has_actor ps ≡ ltb 0 (actors ps)
unfolding has_actor
has_actor-actors [] = refl
has_actor-actors (p ∷ ps) = ground (arith, has_actor-actors ps)

-- Stamping a known caller adds an ACTOR exactly if there is none, and stamping again, whoever calls,
-- changes nothing.
pub with_actor_lem :
    (ps : List Participant) (a b : Uuid)
    → a ≢ nil_uuid
    → (actors (with_actor ps (some a)) ≡ max 1 (actors ps))
      × (with_actor (with_actor ps (some a)) (some b) ≡ with_actor ps (some a))
unfolding with_actor has_actor
with_actor_lem ps a b h = ground (arith, =ᵇ_refl actor_role, has_actor-actors ps)

-- The ids by their description: each known id at its first place, and not again behind it.
abbrev distinct_ids : List Participant → List Uuid
distinct_ids [] = []
distinct_ids (p ∷ ps) =
    if p.id == nil_uuid
    then distinct_ids ps
    else p.id ∷ keep (λ a. not (p.id == a)) (distinct_ids ps)

abbrev unseen : List Uuid → Uuid → Bool
unseen seen a = not (has_id a seen)

keep-unseen_cons :
    (x : Uuid) (seen xs : List Uuid)
    → keep (unseen seen) (keep (λ a. not (x == a)) xs) ≡ keep (unseen (x ∷ seen)) xs
keep-unseen_cons x seen [] = refl
keep-unseen_cons x seen (y ∷ xs) = ground (arith, keep-unseen_cons x seen xs)

has_id_eq : (x y : Uuid) (seen : List Uuid) → (x == y) ≡ true → has_id x seen ≡ has_id y seen
has_id_eq x y seen h = ap (λ z. has_id z seen) (==→eq x y h)

keep-unseen_again :
    (x : Uuid) (seen xs : List Uuid)
    → has_id x seen ≡ true
    → keep (unseen (x ∷ seen)) xs ≡ keep (unseen seen) xs
keep-unseen_again x seen [] h = refl
keep-unseen_again x seen (y ∷ xs) h =
    ground (arith, keep-unseen_again x seen xs h, has_id_eq x y seen)

ids_from_lem :
    (ps : List Participant) (seen out : List Uuid)
    → ids_from ps seen out ≡ out ++ keep (unseen seen) (distinct_ids ps)
unfolding ids_from
ids_from_lem [] seen out = rw append-nil
ids_from_lem (p ∷ ps) seen out = ground (
  arith,
  ids_from_lem ps seen out,
  ids_from_lem ps (p.id ∷ seen) (out ++ (p.id ∷ [])),
  append_assoc out (p.id ∷ []) (keep (unseen (p.id ∷ seen)) (distinct_ids ps)),
  keep-unseen_cons p.id seen (distinct_ids ps),
  keep-unseen_again p.id seen (distinct_ids ps),
)

keep_all : (xs : List Uuid) → keep (unseen []) xs ≡ xs
keep_all [] = refl
keep_all (x ∷ xs) = rw (keep_all xs)

abbrev takes_part : Uuid → List Participant → Bool
takes_part a [] = false
takes_part a (p ∷ ps) = p.id == a || takes_part a ps

abbrev IsDistinct : List Uuid → Type 0
IsDistinct [] = Unit
IsDistinct (x ∷ xs) = (has_id x xs ≡ false) × IsDistinct xs

has_id-keep :
    (x a : Uuid) (xs : List Uuid)
    → has_id a (keep (λ b. not (x == b)) xs) ≡ (not (x == a) && has_id a xs)
has_id-keep x a [] = ground arith
has_id-keep x a (y ∷ xs) = ground (arith, has_id-keep x a xs)

keep-IsDistinct :
    (x : Uuid) (xs : List Uuid) → IsDistinct xs → IsDistinct (keep (λ b. not (x == b)) xs)
keep-IsDistinct x [] h = tt
keep-IsDistinct x (y ∷ xs) (fresh, h) = ground (arith, has_id-keep x y xs, keep-IsDistinct x xs h)

distinct_ids-IsDistinct : (ps : List Participant) → IsDistinct (distinct_ids ps)
distinct_ids-IsDistinct [] = tt
distinct_ids-IsDistinct (p ∷ ps) = ground (
  arith,
  distinct_ids-IsDistinct ps,
  has_id-keep p.id p.id (distinct_ids ps),
  keep-IsDistinct p.id (distinct_ids ps),
)

has_id-distinct_ids :
    (a : Uuid) (ps : List Participant)
    → has_id a (distinct_ids ps) ≡ (not (a == nil_uuid) && takes_part a ps)
has_id-distinct_ids a [] = ground arith
has_id-distinct_ids a (p ∷ ps) =
    ground (arith, has_id-distinct_ids a ps, has_id-keep p.id a (distinct_ids ps))

-- The ids of the participants are those that are not nil, each at its first place in the list: no id
-- stands twice, and an id stands there exactly when it is not nil and some participant has it.
participant_ids_lem :
    (ps : List Participant)
    → (participant_ids ps ≡ distinct_ids ps)
      × IsDistinct (participant_ids ps)
      × ((a : Uuid) → has_id a (participant_ids ps) ≡ (not (a == nil_uuid) && takes_part a ps))
unfolding participant_ids
participant_ids_lem ps =
    let e : participant_ids ps ≡ distinct_ids ps =
      ids_from_lem ps [] [] ∙ keep_all (distinct_ids ps) in
    (e, rw e (distinct_ids-IsDistinct ps), λ a. rw e (has_id-distinct_ids a ps))
