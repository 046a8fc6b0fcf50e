-- ===== src/MediaFake/Receptions.antt =====
-- internal/mediafake/mediafake.go: when a unit takes a reception.
use hoersaal.Base.{
  ◌≡◌, refl, sym, ◌∙◌, ap, ◌↔◌, Bool, true, false, not, Option, none, some, List, [], map, arith,
  Result, ok, err, if◌then◌else◌, All, In, IsDistinct, Option-cases, Result-cases, inl, inr, if_lem,
  ◌++◌, subst, SameMembers,
}
use hoersaal.Text.{text_eq}
use hoersaal.Dict.{lookup, values}
use hoersaal.Domain.Model.{ConferenceId, ParticipantId, Source, Subscription}
use hoersaal.MediaPort.{PortError, invalid, unknown}
use hoersaal.MediaFake.Records.{Held, FakeUnit, Fabric}
use hoersaal.MediaFake.Checks.{has, check_entries, by_id}
use hoersaal.MediaFake.Units.{
  reachable_state, conference_for, at_found, over_links, forwardable, accepted, set_reception,
}
use hoersaal.MediaFake.Fitting.{
  IsFitting, AreReaching, by_id_filed, source_of, check_entries_iff, all-Fresh,
}

module _ {W : Type 0} where
  reachable_state_answers :
      (c : ConferenceId) (u : FakeUnit W)
      → u.alive ≡ true
      → has c u.lost ≡ false
      → reachable_state c u ≡ (none, u)
  unfolding reachable_state
  reachable_state_answers c u a l =
      let Answers : Option PortError × FakeUnit W → Type 0 = λ r. r ≡ (none, u) in
      if_lem Answers (not u.alive) (λ q. absurd (ground arith))
        (λ q.
          if_lem Answers (has c u.lost) (λ q₁. absurd (let bad : true ≡ false = sym q₁ ∙ l in cc))
            (λ q₁. refl))

  reachable_state_inv :
      (c : ConferenceId) (u : FakeUnit W)
      → (reachable_state c u).0 ≡ none
      → (u.alive ≡ true) × (has c u.lost ≡ false)
  unfolding reachable_state
  reachable_state_inv c u =
      let Inv : Option PortError × FakeUnit W → Type 0 =
        λ r. r.0 ≡ none → (u.alive ≡ true) × (has c u.lost ≡ false) in
      if_lem Inv (not u.alive) (λ q h. cc)
        (λ q. if_lem Inv (has c u.lost) (λ q₁ h. cc) (λ q₁ h. (ground arith, q₁)))

  conference_for_found :
      (c : ConferenceId) (u : FakeUnit W) (h : Held)
      → u.alive ≡ true
      → has c u.lost ≡ false
      → lookup c u.conferences ≡ some h
      → conference_for c u ≡ (ok h, u)
  unfolding conference_for
  conference_for_found c u h a l e =
      let answers = reachable_state_answers c u a l in
      let no_refusal : (reachable_state c u).0 ≡ none =
        ap (λ (r : Option PortError × FakeUnit W). r.0) answers in
      let same : (reachable_state c u).1 ≡ u =
        ap (λ (r : Option PortError × FakeUnit W). r.1) answers in
      rw (conference_for, no_refusal, same, e) (ap (λ (v : FakeUnit W). (ok_held h, v)) same)
    where
      ok_held : Held → Result PortError Held
      ok_held g = ok g

  conference_for_inv :
      (c : ConferenceId) (u : FakeUnit W) (h : Held)
      → (conference_for c u).0 ≡ ok h
      → (u.alive ≡ true) × (has c u.lost ≡ false) × (lookup c u.conferences ≡ some h)
  unfolding conference_for
  conference_for_inv c u h e = elim (Option-cases (reachable_state c u).0) [
    | inr (why, q) ↦ absurd (let bad : err why ≡ ok h = rw (conference_for, q) at e in cc)
    | inl q ↦
        let (a, l) = reachable_state_inv c u q in
        elim (Option-cases (lookup c u.conferences)) [
          | inl m ↦ absurd (
              let same : (reachable_state c u).1 ≡ u =
                ap (λ (r : Option PortError × FakeUnit W). r.1) (reachable_state_answers c u a l) in
              let bad : err unknown ≡ ok h = rw (conference_for, q, same, m) at e in cc)
          | inr (g, m) ↦
              let found : (conference_for c u).0 ≡ ok g =
                ap (λ (r : Result PortError Held × FakeUnit W). r.0)
                  (conference_for_found c u g a l m) in
              let same : g ≡ h = cc in (a, l, m ∙ ap some same)
        ]
  ]

  -- The sources that reach a unit: those it holds in the conference, and those over its links.
  abbrev pub reaching : Fabric W → ConferenceId → FakeUnit W → Held → List Source
  reaching units c u held =
      values held.sources ++ over_links units u.name c (map (λ l. l.0) held.links)

  -- A reception that a unit takes: it answers, holds the conference, admitted the subscriber, and each
  -- entry fits a source that reaches the unit, none twice.
  pub record IsTaken (sort : List Source → List Source) (units : Fabric W) (c : ConferenceId)
      (p : ParticipantId) (es : List Subscription) (u : FakeUnit W) (out : List Subscription)
      : Type 0 where
    pub alive : u.alive ≡ true
    pub not_lost : has c u.lost ≡ false
    pub held : Held
    pub holds : lookup c u.conferences ≡ some held
    pub admitted : has p held.subscribers ≡ true
    pub fitting :
        All (IsFitting (by_id (forwardable sort units c u)) (reaching units c u held) p) es
    pub no_two : IsDistinct (map source_of es)
    pub answer : out ≡ accepted u es

  forwardable-AreReaching :
      (sort : List Source → List Source) (units : Fabric W) (c : ConferenceId) (u : FakeUnit W)
      (held : Held)
      → ((xs : List Source) → SameMembers (sort xs) xs)
      → lookup c u.conferences ≡ some held
      → AreReaching (by_id (forwardable sort units c u)) (reaching units c u held)
  unfolding forwardable
  forwardable-AreReaching sort units c u held keeps l x s h =
      let among : In s (forwardable sort units c u) × (s.id ≡ x) =
        by_id_filed (forwardable sort units c u) x s h in
      let shown : forwardable sort units c u ≡ sort (reaching units c u held) =
        rw (forwardable, l) refl in
      ((keeps (reaching units c u held) s).0 (subst (In s) shown among.0), among.1)

  refused_at :
      {A : Type 0} (r : Result PortError Held × FakeUnit W)
      (act : Held → FakeUnit W → Result PortError A × FakeUnit W) (e : PortError)
      → r.0 ≡ err e
      → (at_found r act).0 ≡ err e
  refused_at (err why, v) act e h = cc
  refused_at (ok g, v) act e h = cc

  abbrev tested :
      Bool
      → Bool
      → FakeUnit W
      → FakeUnit W
      → List Subscription
      → Result PortError (List Subscription) × FakeUnit W
  tested b d v w got =
      if not b then (err unknown, v) else if not d then (err invalid, v) else (ok got, w)

  two_tests :
      (b d : Bool) (v w : FakeUnit W) (got out : List Subscription)
      → ((tested b d v w got).0 ≡ ok out) ↔ ((b ≡ true) × (d ≡ true) × (out ≡ got))
  two_tests true true v w got out = (λ h. (refl, refl, cc), λ (p, q, e). ap ok (sym e))
  two_tests true false v w got out = (λ h. cc, λ h. cc)
  two_tests false d v w got out = (λ h. cc, λ h. cc)

  -- Where the sorting keeps the members of a list, a unit takes a reception, with just the accepted
  -- entries as its answer, exactly when it answers, has not lost the conference, holds it and has
  -- admitted the subscriber, no source is named twice, and each entry names the subscriber and a
  -- layer that the source filed under its identifier offers, which is one of the sources that the
  -- unit holds in the conference or that reach it over its links.
  pub set_reception_iff :
      (sort : List Source → List Source) (units : Fabric W) (c : ConferenceId) (p : ParticipantId)
      (es : List Subscription) (u : FakeUnit W) (out : List Subscription)
      → ((xs : List Source) → SameMembers (sort xs) xs)
      → ((set_reception sort units c p es u).0 ≡ ok out) ↔ IsTaken sort units c p es u out
  unfolding set_reception
  set_reception_iff sort units c p es u out keeps = (
    λ h. elim (Result-cases (conference_for c u).0) [
      | inl (e, q) ↦ absurd (
          let bad : (set_reception sort units c p es u).0 ≡ err e =
            refused_at (conference_for c u) _ e q in
          cc)
      | inr (g, q) ↦
          let (a, l, m) = conference_for_inv c u g q in
          let (admitted, fits, answer) =
            (two_tests (has p g.subscribers)
                (check_entries (by_id (forwardable sort units c u)) p [] es) u _ (accepted u es)
                out).0
              (rw (set_reception, conference_for_found c u g a l m) at h) in
          let (fitting, no_two, _) =
            (check_entries_iff (by_id (forwardable sort units c u)) (reaching units c u g)
                (forwardable-AreReaching sort units c u g keeps m) p [] es).0
              fits in
          record {
            alive = a;
            not_lost = l;
            held = g;
            holds = m;
            admitted = admitted;
            fitting = fitting;
            no_two = no_two;
            answer = answer;
          }
    ],
    λ k.
        let fits : check_entries (by_id (forwardable sort units c u)) p [] es ≡ true =
          (check_entries_iff (by_id (forwardable sort units c u)) (reaching units c u k.held)
              (forwardable-AreReaching sort units c u k.held keeps k.holds) p [] es).1
            (k.fitting, k.no_two, all-Fresh es) in
        rw (set_reception, conference_for_found c u k.held k.alive k.not_lost k.holds)
          ((two_tests (has p k.held.subscribers)
              (check_entries (by_id (forwardable sort units c u)) p [] es) u _ (accepted u es)
              out).1
            (k.admitted, fits, k.answer)),
  )
