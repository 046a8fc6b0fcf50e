-- ===== src/MediaFake/Units.antt =====
-- internal/mediafake/mediafake.go: the operations of the port on one unit of a fabric. Each answers what
-- the port answers and the unit afterwards: an operation that is refused because a restart lost the
-- conference forgets it. `mediaport.NewReference` and `NewTransport` keep their bytes.
use hoersaal.Base.{
  ℕ, suc, Bool, false, not, ◌&&◌, Option, none, some, List, [], ◌∷◌, ◌++◌, map, Result, ok, err,
  if◌then◌else◌, pos, pos_part, leb_ℤ, ltb, length, ◌==◌,
}
use hoersaal.Text.{Text, codes, is_empty, text_eq, sort_by}
use hoersaal.Dict.{lookup, insert, delete, values}
use hoersaal.Domain.Conference.{is_some}
use hoersaal.Domain.Model.{ConferenceId, ParticipantId, Source, Subscription}
use hoersaal.MediaPort
use hoersaal.MediaPort.{
  PortError, invalid, unknown, conflict, unavailable, lost, Profile, Transport, Reference, LinkId,
}
use hoersaal.MediaFake.Records.{
  opening_a_conference, admitting_a_publisher, admitting_a_subscriber, carrying_a_link, Held,
  new_held, FakeUnit, Fabric,
}
use hoersaal.MediaFake.Checks.{
  has, same_profile, check_sources, add_sources, by_id, check_entries, cut, reference_name,
}

module _ {W : Type 0} where
  unfoldable pub reference : FakeUnit W → Reference
  reference u = codes "mediafake:" ++ u.name

  unfoldable pub reachable_state : ConferenceId → FakeUnit W → Option PortError × FakeUnit W
  unfolding has
  reachable_state c u =
      if not u.alive
      then (some unavailable, u)
      else if has c u.lost
      then (some MediaPort.lost, record u { lost = delete c u.lost })
      else (none, u)

  unfoldable pub conference_for : ConferenceId → FakeUnit W → Result PortError Held × FakeUnit W
  unfolding reachable_state
  conference_for c u =
      let (refusal, v) = reachable_state c u in
      elim refusal [
        | some e ↦ (err e, v)
        | none ↦ elim (lookup c v.conferences) [
          | none ↦ (err unknown, v)
          | some held ↦ (ok held, v)
        ]
      ]

  -- What an operation does with the conference it names.
  abbrev pub at_found :
      {A : Type 0}
      → Result PortError Held × FakeUnit W
      → (Held → FakeUnit W → Result PortError A × FakeUnit W)
      → Result PortError A × FakeUnit W
  at_found (err e, v) act = (err e, v)
  at_found (ok held, v) act = act held v

  -- `Serves` was called, and not with the profile's codecs.
  unfoldable pub unserved : Profile → FakeUnit W → Bool
  unfolding has
  unserved p u = elim u.servable [ none ↦ false | some set ↦ not (has p.codecs set) ]

  -- `OpenConference` from the look at what is held.
  unfoldable pub open_served :
      ConferenceId → Profile → FakeUnit W → Result PortError (Unit {0}) × FakeUnit W
  unfolding has same_profile new_held
  open_served c p v = elim (lookup c v.conferences) [
    | some held ↦ if same_profile held.profile p then (ok tt, v) else (err conflict, v)
    | none ↦
        if has opening_a_conference v.refusing
        then (err MediaPort.refused, v)
        else (ok tt, record v { conferences = insert c (new_held p) v.conferences })
  ]

  unfoldable pub open_conference :
      ConferenceId → Profile → FakeUnit W → Result PortError (Unit {0}) × FakeUnit W
  unfolding reachable_state unserved open_served
  open_conference c p u =
      let (refusal, v) = reachable_state c u in
      elim refusal [
        | some e ↦ (err e, v)
        | none ↦
            if is_empty p.codecs
            then (err invalid, v)
            else if unserved p v
            then (err invalid, v)
            else open_served c p v
      ]

  unfoldable pub transport_for : FakeUnit W → ConferenceId → ParticipantId → Transport
  transport_for u c p = codes "mediafake:" ++ (u.name ++ (codes "/" ++ (c ++ (codes "/" ++ p))))

  unfoldable pub admit_publisher_at :
      Held
      → ConferenceId
      → ParticipantId
      → List Source
      → FakeUnit W
      → Result PortError Transport × FakeUnit W
  unfolding has check_sources add_sources transport_for
  admit_publisher_at held c p sources v =
      if is_empty p
      then (err invalid, v)
      else if has p held.publishers
      then (err conflict, v)
      else elim (check_sources held p sources) [
        | some e ↦ (err e, v)
        | none ↦ if has admitting_a_publisher v.refusing then (err MediaPort.refused, v) else (
          ok (transport_for v c p),
          record v {
            conferences =
                insert c
                  (record held {
                    publishers = insert p tt held.publishers;
                    sources = add_sources sources held.sources;
                  })
                  v.conferences;
          },
        )
      ]

  unfoldable pub admit_publisher :
      ConferenceId
      → ParticipantId
      → List Source
      → FakeUnit W
      → Result PortError Transport × FakeUnit W
  unfolding conference_for admit_publisher_at
  admit_publisher c p sources u =
      at_found (conference_for c u) (λ held v. admit_publisher_at held c p sources v)

  unfoldable pub admit_subscriber :
      ConferenceId → ParticipantId → FakeUnit W → Result PortError Transport × FakeUnit W
  unfolding conference_for has transport_for
  admit_subscriber c p u = at_found (conference_for c u) (λ held v.
      if is_empty p
      then (err invalid, v)
      else if has p held.subscribers
      then (err conflict, v)
      else if has admitting_a_subscriber v.refusing
      then (err MediaPort.refused, v)
      else (
        ok (transport_for v c p),
        record v {
          conferences =
              insert c (record held { subscribers = insert p tt held.subscribers }) v.conferences;
        },
      ))

  -- The sources that reach a unit over its links: of each peer that has made a link back.
  unfoldable pub over_links : Fabric W → Text → ConferenceId → List Text → List Source
  over_links units name c [] = []
  over_links units name c (peer ∷ peers) =
      let rest = over_links units name c peers in
      elim (lookup peer units) [
        | none ↦ rest
        | some other ↦ elim (lookup c other.conferences) [
          | none ↦ rest
          | some far ↦ if is_some (lookup name far.links) then values far.sources ++ rest else rest
        ]
      ]

  -- `sort` is the sorting of `forwardable` by the identifiers, `sort.Slice`.
  unfoldable pub forwardable :
      (List Source → List Source) → Fabric W → ConferenceId → FakeUnit W → List Source
  unfolding over_links
  forwardable sort units c u = elim (lookup c u.conferences) [
    | none ↦ []
    | some held ↦
        sort (values held.sources ++ over_links units u.name c (map (λ l. l.0) held.links))
  ]

  -- What a unit accepts of the entries.
  unfoldable pub accepted : FakeUnit W → List Subscription → List Subscription
  unfolding cut
  accepted u entries =
      let ordered = sort_by (λ e. e.source) entries in
      if leb_ℤ (pos 0) u.accept_at_most && ltb (pos_part u.accept_at_most) (length ordered)
      then cut (pos_part u.accept_at_most) ordered
      else ordered

  unfoldable pub set_reception :
      (List Source → List Source)
      → Fabric W
      → ConferenceId
      → ParticipantId
      → List Subscription
      → FakeUnit W
      → Result PortError (List Subscription) × FakeUnit W
  unfolding conference_for has forwardable by_id check_entries accepted
  set_reception sort units c p entries u = at_found (conference_for c u) (λ held v.
      if not (has p held.subscribers)
      then (err unknown, v)
      else if not (check_entries (by_id (forwardable sort units c v)) p [] entries)
      then (err invalid, v)
      else (
        ok (accepted v entries),
        record v {
          conferences =
              insert c (record held { receptions = insert p (accepted v entries) held.receptions })
                v.conferences;
        },
      ))

  -- `decimal` is the `%d` of `fmt`.
  unfoldable pub link_conference :
      (ℕ → Text)
      → Fabric W
      → ConferenceId
      → Reference
      → FakeUnit W
      → Result PortError LinkId × FakeUnit W
  unfolding conference_for has
  link_conference decimal units c r u = at_found (conference_for c u) (λ held v.
      elim (reference_name r) [
        | none ↦ (err invalid, v)
        | some name ↦
            if name == v.name
            then (err invalid, v)
            else if not (is_some (lookup name units))
            then (err invalid, v)
            else elim (lookup name held.links) [
              | some existing ↦ (ok existing, v)
              | none ↦
                  if has carrying_a_link v.refusing
                  then (err MediaPort.refused, v)
                  else let id =
                      v.name ++ (codes "-" ++ (name ++ (codes "-" ++ decimal (suc v.links)))) in
                    (
                      ok id,
                      record v {
                        links = suc v.links;
                        conferences =
                            insert c (record held { links = insert name id held.links })
                              v.conferences;
                      },
                    )
            ]
      ])

  -- A unit of the fabric, when the one named closes a conference.
  unfoldable pub unlink : Text → ConferenceId → FakeUnit W → FakeUnit W
  unlink name c other = if other.name == name then other else elim (lookup c other.conferences) [
    | none ↦ other
    | some held ↦ record other {
      conferences = insert c (record held { links = delete name held.links }) other.conferences;
    }
  ]

  -- The unit afterwards, and what the closing does to each other unit of the fabric.
  unfoldable pub close_conference :
      ConferenceId
      → FakeUnit W
      → Result PortError (Unit {0}) × FakeUnit W × (FakeUnit W → FakeUnit W)
  unfolding unlink
  close_conference c u = if not u.alive then (err unavailable, u, λ other. other) else (
    ok tt,
    record u { lost = delete c u.lost; conferences = delete c u.conferences },
    unlink u.name c,
  )

  unfoldable pub report_capacity : FakeUnit W → Result PortError W
  report_capacity u = if not u.alive then err unavailable else ok u.load
