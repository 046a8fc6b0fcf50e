-- ===== src/Admission/Cleared.antt =====
-- internal/admission/admission.go: what stands when a unit is told.
use hoersaal.Base.{
  ◌≡◌, ◌≢◌, refl, sym, ◌∙◌, ap, subst, Bool, true, false, not, ◌&&◌, some, List, [], ◌∷◌, arith,
  Result, ok, nat_eq, length, ◌==◌, ==_iff, >>=-eq-ok, refuse_if-eq-ok, ◌>>=◌, ◌>>◌, refuse_if,
}
use hoersaal.Text.{is_empty, is_empty-false, text_eq}
use hoersaal.Wire.{Message}
use hoersaal.Domain.Model.{ParticipantId, Role, Source, new_role}
use hoersaal.Placement.Records.{UnitId, Arrival, new_arrival}
use hoersaal.Placement.Naive.{Answer, place, refuse}
use hoersaal.RoomCred.Layout.{Claims}
use hoersaal.Admission.Records.{
  Request, Room, Seams, malformed_request, credential_refused, not_permitted, conference_not_open,
  unit_unavailable, bad_room,
}
use hoersaal.Admission.Desk.{
  Stop, no, fault, Ready, need, need_ok, placed, read_request, mint, prepare,
}
use hoersaal.Admission.Offers.{need-eq-ok, need_ok-eq-ok, named_role, AreOffered, mint_lem}
use hoersaal.Admission.Requests.{IsRequest, read_request_lem}

placed-eq-ok : (a : Answer) (id : UnitId) → placed a ≡ ok id → a ≡ place id
unfolding placed
placed-eq-ok (place i) id h = cc
placed-eq-ok (refuse r) id h = cc

module _ {W U : Type 0} (seams : Seams W U) where
  -- What the checks of an admission establish before a unit is told.
  pub record Cleared (room : Room W) (m : Message) (r : Ready U) : Type 0 where
    pub room_named : room.id ≢ []
    pub same_room : room.placement.id ≡ room.id
    pub asked : IsRequest seams m r.request
    pub for_this_room : r.request.conference ≡ room.id
    pub verified : seams.verify r.request.credential room.id ≡ ok r.claims
    pub role_kept : r.role ≡ r.claims.role
    pub role_named : r.role ≢ []
    pub may_publish : r.request.publishing ≡ true → seams.may_publish r.role ≡ true
    pub is_open : room.is_open ≡ true
    pub fresh : seams.name 0 ≡ some r.participant
    pub participant_named : r.participant ≢ []
    pub offered : AreOffered seams 1 r.participant r.request.offers r.sources
    pub placed_there :
        seams.place room.pool room.placement
          (record { publishes = r.request.publishing; sources = r.sources })
        ≡ place r.unit_id
    pub reachable : seams.unit r.unit_id ≡ some r.unit

  new_arrival_lem :
      (b : Bool) (ss : List Source) (a : Arrival)
      → new_arrival b ss ≡ ok a
      → record { publishes = b; sources = ss } ≡ a
  unfolding new_arrival
  new_arrival_lem true [] a h = cc
  new_arrival_lem true (s ∷ ss) a h = cc
  new_arrival_lem false [] a h = cc
  new_arrival_lem false (s ∷ ss) a h = cc

  -- The steps of an admission from the names on.
  abbrev from_names : Room W → Request → Claims → Role → Result Stop (Ready U)
  from_names room req claims role = do
    (participant, sources) ← mint seams req
    refuse_if (req.publishing && not (nat_eq (length sources) (length req.offers)))
        (no malformed_request)
    arrival ← need_ok (no malformed_request) (new_arrival req.publishing sources)
    unit_id ← placed (seams.place room.pool room.placement arrival)
    unit ← need (no unit_unavailable) (seams.unit unit_id)
    ok (record {
      request = req;
      claims = claims;
      role = role;
      participant = participant;
      sources = sources;
      unit_id = unit_id;
      unit = unit;
    })

  -- The steps from a request that was read.
  abbrev from_request : Room W → Request → Result Stop (Ready U)
  from_request room req = do
    refuse_if (not (req.conference == room.id)) (no malformed_request)
    claims ← need_ok (no credential_refused) (seams.verify req.credential room.id)
    role ← need_ok (no credential_refused) (new_role claims.role)
    refuse_if (req.publishing && not (seams.may_publish role)) (no not_permitted)
    refuse_if (not room.is_open) (no conference_not_open)
    from_names room req claims role

  -- What the steps from the names on establish.
  record Named (room : Room W) (req : Request) (claims : Claims) (role : Role) (r : Ready U)
      : Type 0 where
    same_request : r.request ≡ req
    same_claims : r.claims ≡ claims
    same_role : r.role ≡ role
    fresh : seams.name 0 ≡ some r.participant
    full : r.participant ≢ []
    offered : AreOffered seams 1 r.participant req.offers r.sources
    chosen :
        seams.place room.pool room.placement
          (record { publishes = req.publishing; sources = r.sources })
        ≡ place r.unit_id
    held : seams.unit r.unit_id ≡ some r.unit

  from_names-Named :
      (room : Room W) (req : Request) (claims : Claims) (role : Role) (r : Ready U)
      → (req.publishing ≡ false → req.offers ≡ [])
      → from_names room req claims role ≡ ok r
      → Named room req claims role r
  from_names-Named room req claims role r none_offered h =
      let ((participant, sources), minted, h₁) = >>=-eq-ok (mint seams req) _ h in
      let (offers_taken, h₂) =
        refuse_if-eq-ok (req.publishing && not (nat_eq (length sources) (length req.offers)))
          (no malformed_request) _ h₁ in
      let (arrival, arrives, h₃) =
        >>=-eq-ok (need_ok (no malformed_request) (new_arrival req.publishing sources)) _ h₂ in
      let (unit_id, chosen, h₄) =
        >>=-eq-ok (placed (seams.place room.pool room.placement arrival)) _ h₃ in
      let (unit, held, h₅) = >>=-eq-ok (need (no unit_unavailable) (seams.unit unit_id)) _ h₄ in
      Named_of participant sources arrival unit_id unit
        (mint_lem seams req participant sources none_offered minted offers_taken)
        (new_arrival_lem req.publishing sources arrival (
          need_ok-eq-ok (no malformed_request) (new_arrival req.publishing sources) arrival
            arrives))
        (placed-eq-ok (seams.place room.pool room.placement arrival) unit_id chosen)
        (need-eq-ok (no unit_unavailable) (seams.unit unit_id) unit held) h₅
    where
      all : ParticipantId → List Source → UnitId → U → Ready U
      all p ss i u = record {
        request = req;
        claims = claims;
        role = role;
        participant = p;
        sources = ss;
        unit_id = i;
        unit = u;
      }

      ready : Ready U → Result Stop (Ready U)
      ready x = ok x

      Named_of :
          (p : ParticipantId) (ss : List Source) (a : Arrival) (i : UnitId) (u : U)
          → (seams.name 0 ≡ some p) × (p ≢ []) × AreOffered seams 1 p req.offers ss
          → record { publishes = req.publishing; sources = ss } ≡ a
          → seams.place room.pool room.placement a ≡ place i
          → seams.unit i ≡ some u
          → ready (all p ss i u) ≡ ok r
          → Named room req claims role r
      Named_of p ss a i u (fresh, full, offered) e chosen held made =
          let same : all p ss i u ≡ r = cc in
          subst (Named room req claims role) same (record {
            same_request = refl;
            same_claims = refl;
            same_role = refl;
            fresh = fresh;
            full = full;
            offered = offered;
            chosen = ap (seams.place room.pool room.placement) e ∙ chosen;
            held = held;
          })

  -- What the steps from a request on establish of the claims and the role.
  from_request_lem :
      (room : Room W) (req : Request) (r : Ready U)
      → from_request room req ≡ ok r
      → (req.conference ≡ room.id)
        × (claims : Claims) × (role : Role) × (seams.verify req.credential room.id ≡ ok claims)
        × (claims.role ≡ role)
        × (role ≢ [])
        × (req.publishing ≡ true → seams.may_publish role ≡ true)
        × (room.is_open ≡ true)
        × (from_names room req claims role ≡ ok r)
  from_request_lem room req r h =
      let (for_room, h₁) =
        refuse_if-eq-ok (not (req.conference == room.id)) (no malformed_request) _ h in
      let (claims, verified, h₂) =
        >>=-eq-ok (need_ok (no credential_refused) (seams.verify req.credential room.id)) _ h₁ in
      let (role, role_ok, h₃) =
        >>=-eq-ok (need_ok (no credential_refused) (new_role claims.role)) _ h₂ in
      let (powers, h₄) =
        refuse_if-eq-ok (req.publishing && not (seams.may_publish role)) (no not_permitted) _ h₃ in
      let (is_open, h₅) = refuse_if-eq-ok (not room.is_open) (no conference_not_open) _ h₄ in
      let (same_role, role_named) =
        named_role claims.role role
          (need_ok-eq-ok (no credential_refused) (new_role claims.role) role role_ok) in
      (
        (==_iff req.conference room.id).0 (ground arith),
        claims,
        role,
        need_ok-eq-ok (no credential_refused) (seams.verify req.credential room.id) claims verified,
        same_role,
        role_named,
        λ p. ground arith,
        ground arith,
        h₅,
      )

  pub prepare-Cleared :
      (room : Room W) (m : Message) (r : Ready U) → prepare seams room m ≡ ok r → Cleared room m r
  unfolding prepare
  prepare-Cleared room m r h =
      let (named_room, h₁) = refuse_if-eq-ok (is_empty room.id) (fault bad_room) _ h in
      let (matches, h₂) =
        refuse_if-eq-ok (not (room.placement.id == room.id)) (fault bad_room) _ h₁ in
      let (req, asked, h₃) =
        >>=-eq-ok (need (no malformed_request) (read_request seams m)) (from_request room) h₂ in
      let asked_for : IsRequest seams m req =
        read_request_lem seams m req
          (need-eq-ok (no malformed_request) (read_request seams m) req asked) in
      let (for_room, claims, role, verified, same_role, role_named, powers, is_open, h₄) =
        from_request_lem room req r h₃ in
      let k : Named room req claims role r =
        from_names-Named room req claims role r asked_for.offers_none h₄ in
      record {
        room_named = is_empty-false room.id named_room;
        same_room = (==_iff room.placement.id room.id).0 (ground arith);
        asked = subst (IsRequest seams m) (sym k.same_request) asked_for;
        for_this_room = rw k.same_request for_room;
        verified = rw (k.same_request, k.same_claims) verified;
        role_kept = rw (k.same_role, k.same_claims) (sym same_role);
        role_named = rw k.same_role role_named;
        may_publish = rw (k.same_request, k.same_role) powers;
        is_open = is_open;
        fresh = k.fresh;
        participant_named = k.full;
        offered = rw k.same_request k.offered;
        placed_there = rw k.same_request k.chosen;
        reachable = k.held;
      }
