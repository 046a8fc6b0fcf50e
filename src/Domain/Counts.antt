-- ===== src/Domain/Counts.antt =====
-- internal/domain/domain.go: `ParticipantCount` counts endpoints and `IdentityCount` people.
use hoersaal.Base.{
  suc, ◌+◌, ◌≤◌, ◌<◌, ◌≡◌, refl, sym, ap, ◌↔◌, inl, inr, some, none, List, [], ◌∷◌, map, arith,
  ◌==◌, ==_iff, Bool-cases, In, IsDistinct, length,
}
use hoersaal.Text.{Text, text_eq}
use hoersaal.Dict.{Dict, values, lookup, insert, length-insert, lookup-insert, lookup-insert_self}
use hoersaal.Domain.Model.{IdentityId, Participant}
use hoersaal.Domain.Conference.{Conference, see_identities, identity_count, participant_count}

length-insert-le : (k : Text) (m : Dict Text (Unit {0})) → length (insert k tt m) ≤ length m + 1
length-insert-le k m = ground (arith, length-insert k tt m)

length-see_identities :
    (seen : Dict IdentityId (Unit {0})) (ps : List Participant)
    → length (see_identities seen ps) ≤ length seen + length ps
unfolding see_identities
length-see_identities seen [] = omega arith
length-see_identities seen (p ∷ ps) =
    omega (
      arith,
      length-insert-le p.identity seen,
      length-see_identities (insert p.identity tt seen) ps,
    )

-- Somebody who was seen before adds nothing.
see_identities_again :
    (seen : Dict IdentityId (Unit {0})) (ps : List Participant) (who : IdentityId)
    → lookup who seen ≡ some tt
    → In who (map (λ p. p.identity) ps)
    → length (see_identities seen ps) < length seen + length ps
unfolding see_identities
see_identities_again seen [] who h i = absurd (i tt)
see_identities_again seen (p ∷ ps) who h (inl e) =
    let old : length (insert p.identity tt seen) ≡ length seen =
      rw (length-insert p.identity tt seen, sym e, h) (omega arith) in
    omega (arith, length-see_identities (insert p.identity tt seen) ps)
see_identities_again seen (p ∷ ps) who h (inr i) =
    let kept : lookup who (insert p.identity tt seen) ≡ some tt =
      rw (lookup-insert p.identity who tt seen) (ground arith) in
    omega (
      arith,
      length-insert-le p.identity seen,
      see_identities_again (insert p.identity tt seen) ps who kept i,
    )

see_identities_twice :
    (seen : Dict IdentityId (Unit {0})) (ps : List Participant)
    → length (see_identities seen ps) ≡ length seen + length ps
    → IsDistinct (map (λ p. p.identity) ps)
unfolding see_identities
see_identities_twice seen [] h = tt
see_identities_twice seen (p ∷ ps) h = (
  λ i. absurd (
      omega (
        arith,
        length-insert-le p.identity seen,
        see_identities_again (insert p.identity tt seen) ps p.identity
            (lookup-insert_self p.identity tt seen) i,
      )),
  see_identities_twice (insert p.identity tt seen) ps (
      omega (
        arith,
        length-insert-le p.identity seen,
        length-see_identities (insert p.identity tt seen) ps,
      )),
)

see_identities_apart :
    (seen : Dict IdentityId (Unit {0})) (ps : List Participant)
    → ((who : IdentityId) → In who (map (λ p. p.identity) ps) → lookup who seen ≡ none)
    → IsDistinct (map (λ p. p.identity) ps)
    → length (see_identities seen ps) ≡ length seen + length ps
unfolding see_identities
see_identities_apart seen [] new d = omega arith
see_identities_apart seen (p ∷ ps) new d =
    let grown : length (insert p.identity tt seen) ≡ length seen + 1 =
      rw (length-insert p.identity tt seen, new p.identity (inl refl)) refl in
    omega (
      arith,
      see_identities_apart (insert p.identity tt seen) ps
          (λ who i.
            rw (lookup-insert p.identity who tt seen) (elim (Bool-cases (p.identity == who)) [
              | inl q ↦ absurd (d.0 (rw ((==_iff p.identity who).0 q) i))
              | inr q ↦ rw q (new who (inr i))
            ]))
          d.1,
    )

length-values {ℓ κ} : {K : Type ℓ} {V : Type κ} (m : Dict K V) → length (values m) ≡ length m
length-values [] = refl
length-values (e ∷ m) = ap suc (length-values m)

-- There are at most as many identities as participants, and as many exactly when no two
-- participants of the conference carry one identity.
pub identity_count-le :
    (c : Conference)
    → (identity_count c ≤ participant_count c)
      × ((identity_count c ≡ participant_count c)
          ↔ IsDistinct (map (λ p. p.identity) (values c.participants)))
unfolding identity_count participant_count lookup
identity_count-le c = (
  omega (arith, length-see_identities [] ps, same),
  (
    λ h. see_identities_twice [] ps (omega (arith, same)),
    λ d. omega (arith, same, see_identities_apart [] ps (λ who i. refl) d),
  ),
)
  where
    ps : List Participant
    ps = values c.participants

    same : length ps ≡ length c.participants
    same = length-values c.participants
