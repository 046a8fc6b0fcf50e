-- ===== src/MediaFake/Books.antt =====
-- internal/mediafake/mediafake.go: what the books of a unit satisfy after any calls.
use hoersaal.Base.{
  ◌≡◌, subst, Bool, false, not, Option, some, List, [], arith, Result, ok, err, if◌then◌else◌, ◌==◌,
  All, All-In, All-imp, Option-cases, Result-cases, inl, inr, if_lem, ℕ,
}
use hoersaal.Text.{Text, is_empty, text_eq}
use hoersaal.Dict.{lookup, insert, delete, insert-All, delete-All, In-keys_of_lookup}
use hoersaal.Domain.Conference.{is_some}
use hoersaal.Domain.Model.{ConferenceId, ParticipantId, Source, Subscription}
use hoersaal.MediaPort.{PortError, Profile, Reference}
use hoersaal.MediaFake.Records.{
  Held, new_held, FakeUnit, Fabric, admitting_a_subscriber, admitting_a_publisher,
  opening_a_conference, carrying_a_link,
}
use hoersaal.MediaFake.Checks.{
  has, check_sources, check_entries, by_id, reference_name, same_profile,
}
use hoersaal.MediaFake.Units.{
  reachable_state, conference_for, at_found, open_conference, admit_publisher_at, admit_publisher,
  admit_subscriber, forwardable, accepted, set_reception, link_conference, unserved, open_served,
  unlink, close_conference,
}
use hoersaal.MediaFake.Entries.{
  ReceptionOk, HeldOk, EntryOk, has-insert, check_entries_lem, published, accepted-All,
}

module _ {W : Type 0} where
  abbrev pub IsBooked : FakeUnit W → Type 0
  IsBooked u = All EntryOk u.conferences

  held_ok :
      (u : FakeUnit W) (c : ConferenceId) (h : Held)
      → IsBooked u
      → lookup c u.conferences ≡ some h
      → HeldOk h
  held_ok u c h k e = All-In EntryOk u.conferences (c, h) k (In-keys_of_lookup c h u.conferences e)

  reachable_state-IsBooked :
      (c : ConferenceId) (u : FakeUnit W) → IsBooked u → IsBooked (reachable_state c u).1
  unfolding reachable_state
  reachable_state-IsBooked c u k =
      if_lem (λ (r : Option PortError × FakeUnit W). IsBooked r.1) (not u.alive) (λ q. k)
        (λ q.
          if_lem (λ (r : Option PortError × FakeUnit W). IsBooked r.1) (has c u.lost) (λ q. k)
            (λ q. k))

  conference_for-IsBooked :
      (c : ConferenceId) (u : FakeUnit W) → IsBooked u → IsBooked (conference_for c u).1
  unfolding conference_for
  conference_for-IsBooked c u k = elim (Option-cases (reachable_state c u).0) [
    | inr (e, q) ↦ rw (conference_for, q) (reachable_state-IsBooked c u k)
    | inl q ↦ elim (Option-cases (lookup c (reachable_state c u).1.conferences)) [
      | inl l ↦ rw (conference_for, q, l) (reachable_state-IsBooked c u k)
      | inr (h, l) ↦ rw (conference_for, q, l) (reachable_state-IsBooked c u k)
    ]
  ]

  conference_for-HeldOk :
      (c : ConferenceId) (u : FakeUnit W) (h : Held)
      → IsBooked u
      → (conference_for c u).0 ≡ ok h
      → HeldOk h
  unfolding conference_for
  conference_for-HeldOk c u h k e = elim (Option-cases (reachable_state c u).0) [
    | inr (why, q) ↦ absurd (let bad : err why ≡ ok h = rw (conference_for, q) at e in cc)
    | inl q ↦ elim (Option-cases (lookup c (reachable_state c u).1.conferences)) [
      | inl l ↦
          absurd (let bad : err PortError.unknown ≡ ok h = rw (conference_for, q, l) at e in cc)
      | inr (g, l) ↦
          let found : conference_for_ok g ≡ ok h = rw (conference_for, q, l) at e in
          let same : g ≡ h = cc in
          subst HeldOk same (held_ok (reachable_state c u).1 c g (reachable_state-IsBooked c u k) l)
    ]
  ]
    where
      conference_for_ok : Held → Result PortError Held
      conference_for_ok g = ok g

  insert-IsBooked :
      (c : ConferenceId) (h : Held) (v : FakeUnit W)
      → HeldOk h
      → IsBooked v
      → IsBooked (record v { conferences = insert c h v.conferences })
  insert-IsBooked c h v ok_h k = insert-All EntryOk c h v.conferences ok_h k

  -- A call keeps the books in order, if what it does with a conference it finds does.
  at_conference :
      {A : Type 0} (c : ConferenceId) (u : FakeUnit W)
      (act : Held → FakeUnit W → Result PortError A × FakeUnit W)
      → IsBooked u
      → ((h : Held) (v : FakeUnit W) → HeldOk h → IsBooked v → IsBooked (act h v).1)
      → IsBooked (at_found (conference_for c u) act).1
  at_conference c u act k keeps = elim (Result-cases (conference_for c u).0) [
    | inl (e, q) ↦ rw q (conference_for-IsBooked c u k)
    | inr (h, q) ↦ rw q (
        keeps h (conference_for c u).1 (conference_for-HeldOk c u h k q)
          (conference_for-IsBooked c u k))
  ]

  guard :
      {A : Type 0} (b : Bool) (e : PortError) (v : FakeUnit W) (r : Result PortError A × FakeUnit W)
      → IsBooked v
      → (b ≡ false → IsBooked r.1)
      → IsBooked (if b then (err e, v) else r).1
  guard b e v r k h = if_lem (λ (x : Result PortError _ × FakeUnit W). IsBooked x.1) b (λ q. k) h

  open_served-IsBooked :
      (c : ConferenceId) (p : Profile) (v : FakeUnit W)
      → IsBooked v
      → IsBooked (open_served c p v).1
  unfolding open_served new_held
  open_served-IsBooked c p v b = elim (Option-cases (lookup c v.conferences)) [
    | inr (h, l) ↦
        rw (open_served, l)
          (if_lem (λ (x : Result PortError (Unit {0}) × FakeUnit W). IsBooked x.1)
            (same_profile h.profile p) (λ s. b) (λ s. b))
    | inl l ↦
        rw (open_served, l)
          (guard (has opening_a_conference v.refusing) _ v _ b (λ q₃.
            insert-IsBooked c (new_held p) v (record { sources_ok = tt; receptions_ok = tt }) b))
  ]

  pub open_conference-IsBooked :
      (c : ConferenceId) (p : Profile) (u : FakeUnit W)
      → IsBooked u
      → IsBooked (open_conference c p u).1
  unfolding open_conference
  open_conference-IsBooked c p u k =
      let v : FakeUnit W = (reachable_state c u).1 in
      let b : IsBooked v = reachable_state-IsBooked c u k in
      elim (Option-cases (reachable_state c u).0) [
        | inr (e, q) ↦ rw (open_conference, q) b
        | inl q ↦
            rw (open_conference, q)
              (guard (is_empty p.codecs) PortError.invalid v _ b (λ q₁.
                guard (unserved p v) PortError.invalid v (open_served c p v) b
                  (λ q₂. open_served-IsBooked c p v b)))
      ]

  pub admit_subscriber-IsBooked :
      (c : ConferenceId) (p : ParticipantId) (u : FakeUnit W)
      → IsBooked u
      → IsBooked (admit_subscriber c p u).1
  unfolding admit_subscriber
  admit_subscriber-IsBooked c p u k = at_conference c u _ k (λ h v o b.
      guard (is_empty p) _ v _ b (λ q. guard (has p h.subscribers) _ v _ b (λ q₁.
        guard (has admitting_a_subscriber v.refusing) _ v _ b (λ q₂.
          insert-IsBooked c _ v
            (record {
              sources_ok = o.sources_ok;
              receptions_ok =
                  All-imp (ReceptionOk h) _ h.receptions
                    (λ e r. (has-insert e.0 p h.subscribers r.0, r.1)) o.receptions_ok;
            })
            b))))

  pub admit_publisher-IsBooked :
      (c : ConferenceId) (p : ParticipantId) (sources : List Source) (u : FakeUnit W)
      → IsBooked u
      → IsBooked (admit_publisher c p sources u).1
  unfolding admit_publisher admit_publisher_at
  admit_publisher-IsBooked c p sources u k = at_conference c u _ k (λ h v o b.
      guard (is_empty p) _ v _ b (λ q. guard (has p h.publishers) _ v _ b (λ q₁.
        elim (Option-cases (check_sources h p sources)) [
          | inr (e, s) ↦ rw s b
          | inl s ↦ rw s (
              guard (has admitting_a_publisher v.refusing) _ v _ b
                (λ q₂. insert-IsBooked c _ v (published h p sources o s) b))
        ])))

  pub set_reception-IsBooked :
      (sort : List Source → List Source) (units : Fabric W) (c : ConferenceId) (p : ParticipantId)
      (entries : List Subscription) (u : FakeUnit W)
      → IsBooked u
      → IsBooked (set_reception sort units c p entries u).1
  unfolding set_reception
  set_reception-IsBooked sort units c p entries u k = at_conference c u _ k (λ h v o b.
      guard (not (has p h.subscribers)) _ v _ b (λ q.
        guard (not (check_entries (by_id (forwardable sort units c v)) p [] entries)) _ v _ b (λ q₁.
          insert-IsBooked c _ v
            (record {
              sources_ok = o.sources_ok;
              receptions_ok =
                  insert-All (ReceptionOk h) p (accepted v entries) h.receptions
                    (
                      ground arith,
                      accepted-All v p entries (
                          check_entries_lem (by_id (forwardable sort units c v)) p [] entries
                            (ground arith)),
                    )
                    o.receptions_ok;
            })
            b)))

  pub link_conference-IsBooked :
      (decimal : ℕ → Text) (units : Fabric W) (c : ConferenceId) (r : Reference) (u : FakeUnit W)
      → IsBooked u
      → IsBooked (link_conference decimal units c r u).1
  unfolding link_conference
  link_conference-IsBooked decimal units c r u k = at_conference c u _ k (λ h v o b.
      elim (Option-cases (reference_name r)) [
        | inl n ↦ rw n b
        | inr (name, n) ↦ rw n (
            guard (name == v.name) _ v _ b (λ q.
              guard (not (is_some (lookup name units))) _ v _ b (λ q₁.
                elim (Option-cases (lookup name h.links)) [
                  | inr (existing, l) ↦ rw l b
                  | inl l ↦ rw l (
                      guard (has carrying_a_link v.refusing) _ v _ b (λ q₂.
                        insert-IsBooked c _ v
                          (record { sources_ok = o.sources_ok; receptions_ok = o.receptions_ok })
                          b))
                ])))
      ])

  pub close_conference-IsBooked :
      (c : ConferenceId) (u : FakeUnit W) → IsBooked u → IsBooked (close_conference c u).1
  unfolding close_conference
  close_conference-IsBooked c u k =
      if_lem
        (λ (x : Result PortError (Unit {0}) × FakeUnit W × (FakeUnit W → FakeUnit W)). IsBooked x.1)
        (not u.alive) (λ q. k) (λ q. delete-All EntryOk c u.conferences k)

  pub unlink-IsBooked :
      (name : Text) (c : ConferenceId) (u : FakeUnit W) → IsBooked u → IsBooked (unlink name c u)
  unfolding unlink
  unlink-IsBooked name c u k =
      if_lem IsBooked (u.name == name) (λ q. k)
        (λ q. elim (Option-cases (lookup c u.conferences)) [
          | inl l ↦ rw l k
          | inr (h, l) ↦
              let o : HeldOk h = held_ok u c h k l in
              rw l (
                insert-IsBooked c (record h { links = delete name h.links }) u
                  (record { sources_ok = o.sources_ok; receptions_ok = o.receptions_ok }) k)
        ])
