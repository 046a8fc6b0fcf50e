-- ===== src/MediaFake/Checks.antt =====
-- internal/mediafake/mediafake.go: the tests that the operations of a unit make on sources, entries,
-- profiles and references.
use hoersaal.Base.{
  ℕ, zero, suc, Bool, true, false, not, ◌&&◌, ◌||◌, Option, none, some, List, [], ◌∷◌,
  if◌then◌else◌, pos, ltb_ℤ, leb_ℤ, ◌==◌,
}
use hoersaal.Text.{Text, codes, is_empty, text_eq}
use hoersaal.Dict.{Dict, lookup, insert}
use hoersaal.Domain.Conference.{is_some}
use hoersaal.Domain.Model.{ParticipantId, SourceId, Source, Subscription, audio, video, outside}
use hoersaal.MediaPort.{PortError, invalid, conflict, Profile, Reference}
use hoersaal.MediaFake.Records.{Set, Held}

unfoldable pub has : Text → Set → Bool
has x set = is_some (lookup x set)

-- `held.profile != p` of two structs.
unfoldable pub same_profile : Profile → Profile → Bool
same_profile p q = p.codecs == q.codecs && (leb_ℤ p.layers q.layers && leb_ℤ q.layers p.layers)

unfoldable pub outside_profile : Profile → Source → Bool
outside_profile p s =
    if s.kind == audio
    then not (leb_ℤ s.layers (pos 1) && leb_ℤ (pos 1) s.layers)
    else if s.kind == video
    then ltb_ℤ s.layers (pos 1) || ltb_ℤ p.layers s.layers
    else true

-- The loop of `AdmitPublisher` over the sources: the first refusal.
unfoldable pub check_sources : Held → ParticipantId → List Source → Option PortError
unfolding outside_profile
check_sources held p [] = none
check_sources held p (s ∷ ss) =
    let rest = check_sources held p ss in
    if not (s.publisher == p)
    then some invalid
    else if outside_profile held.profile s
    then some invalid
    else if is_some (lookup s.id held.sources)
    then some conflict
    else rest

unfoldable pub add_sources : List Source → Dict SourceId Source → Dict SourceId Source
add_sources [] held = held
add_sources (s ∷ ss) held = add_sources ss (insert s.id s held)

-- The sources that may be received, by their identifiers.
unfoldable pub by_id : List Source → Dict SourceId Source
by_id ss = add_sources ss []

-- The loop of `SetReception` over the entries, with the sources named so far.
unfoldable pub check_entries : Dict SourceId Source → ParticipantId → Set → List Subscription → Bool
unfolding has outside
check_entries sources p named [] = true
check_entries sources p named (e ∷ es) =
    let rest = check_entries sources p (insert e.source tt named) es in
    if not (e.subscriber == p)
    then false
    else if has e.source named
    then false
    else elim (lookup e.source sources) [
      | none ↦ false
      | some s ↦ if outside e.layer s.layers then false else rest
    ]

unfoldable pub cut : ℕ → List Subscription → List Subscription
cut n [] = []
cut zero (e ∷ es) = []
cut (suc n) (e ∷ es) = e ∷ cut n es

-- The prefix of a reference, and what follows it.
unfoldable pub after_prefix : Text → Text → Option Text
after_prefix [] b = if is_empty b then none else some b
after_prefix (x ∷ xs) [] = none
after_prefix (x ∷ xs) (y ∷ ys) = if x ∷ [] == y ∷ [] then after_prefix xs ys else none

unfoldable pub reference_name : Reference → Option Text
unfolding after_prefix
reference_name r = after_prefix (codes "mediafake:") r
