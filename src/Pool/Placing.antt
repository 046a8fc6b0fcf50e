-- ===== src/Pool/Placing.antt =====
-- internal/pool/pool.go and internal/placement/placement.go together: a placement made on the pool's
-- view, and what it says of the unit chosen.
use hoersaal.Base.{◌≡◌, sym, subst, true, some, arith, ok, In, inl, inr, ap}
use hoersaal.Text.{text_eq}
use hoersaal.Dict.{lookup}
use hoersaal.Domain.Model.{ConferenceId}
use hoersaal.Domain.Conference.{is_some}
use hoersaal.Float.{Float64, IsIeee}
use hoersaal.Placement.Records.{UnitId, is_admitting, Conference, Arrival}
use hoersaal.Placement.Records
use hoersaal.Placement.Naive.{eligible, place_conference, place_participant, place}
use hoersaal.Placement.Conferences.{ConferenceAnswer, place_conference-ConferenceAnswer}
use hoersaal.Placement.Participants.{ParticipantAnswer, place_participant-ParticipantAnswer}
use hoersaal.Pool.Rows.{State, Row, effective_load, admitting}
use hoersaal.Pool.Methods.{Pool, seam_state, view}
use hoersaal.Pool.Moves.{StateOk}
use hoersaal.Pool.Evolution.{PoolOk, row_ok}
use hoersaal.Pool.Seam.{view_lem}

admitting_word :
    (s : State) (t : Records.State) → seam_state s ≡ some t → is_admitting t ≡ true → s ≡ admitting
unfolding seam_state is_admitting
admitting_word s t h e = ground arith

module _ {W P : Type 0} ⦃f : Float64 W⦄ where
  -- A unit that may take something new: it is admitting, its loads leave room, it was verified
  -- reachable, it answers, and the pool has a handle to it.
  pub record Serves (p : Pool W P) (id : UnitId) (u : Row W P) : Type 0 where
    pub held : lookup id p.units ≡ some u
    pub admits : u.state ≡ admitting
    pub has_room : f.lt (effective_load u) f.ceiling ≡ true
    pub is_reachable : u.reachable ≡ true
    pub is_healthy : u.healthy ≡ true
    pub has_port : is_some u.port ≡ true

  eligible-Serves :
      (laws : IsIeee W) (p : Pool W P) (v : Records.Pool W) (r : Records.UnitRow W)
      → PoolOk p
      → view p ≡ ok v
      → In r v.units
      → eligible r ≡ true
      → (u : Row W P) × Serves p r.id u
  unfolding eligible
  eligible-Serves laws p v r k h i e =
      let (w, g, shows) = view_lem laws p k in
      let same_view : v ≡ w = cc in
      let (u, l, s, n, d) = (shows r).0 (subst (λ x. In r x.units) same_view i) in
      let a : u.state ≡ admitting = admitting_word u.state s n (ground arith) in
      let o = row_ok k u.id u l in
      let st : StateOk admitting u.reachable u.healthy (is_some u.port) =
        subst (λ x. StateOk x u.reachable u.healthy (is_some u.port)) a o.state_ok in
      (
        u,
        record {
          held =
              subst (λ x. lookup x p.units ≡ some u) (sym (ap (λ (x : Records.UnitRow W). x.id) d))
                l;
          admits = a;
          has_room = ground arith;
          is_reachable = st.0;
          is_healthy = st.1;
          has_port = st.2;
        },
      )

  -- A conference that is placed on the view of a pool that satisfies the invariant goes to a unit
  -- that the pool holds as admitting, with an effective load below the eligibility ceiling,
  -- reachable, answering and with a handle.
  pub place_conference-Serves :
      (laws : IsIeee W) (p : Pool W P) (v : Records.Pool W) (c : ConferenceId) (id : UnitId)
      → PoolOk p
      → view p ≡ ok v
      → place_conference v c ≡ place id
      → (u : Row W P) × Serves p id u
  place_conference-Serves laws p v c id k h e =
      let (r, n, l) =
        let a : ConferenceAnswer laws v (place id) =
          subst (ConferenceAnswer laws v) e (place_conference-ConferenceAnswer laws v c) in
        a in
      subst (λ i. (u : Row W P) × Serves p i u) n
        (eligible-Serves laws p v r k h l.listed l.candidate.0)

  -- A participant that is placed on the view of a pool that satisfies the invariant goes to a unit
  -- that the pool holds as admitting, with an effective load below the eligibility ceiling,
  -- reachable, answering and with a handle.
  pub place_participant-Serves :
      (laws : IsIeee W) (p : Pool W P) (v : Records.Pool W) (c : Conference W) (a : Arrival)
      (id : UnitId)
      → PoolOk p
      → view p ≡ ok v
      → place_participant v c a ≡ place id
      → (u : Row W P) × Serves p id u
  place_participant-Serves laws p v c a id k h e =
      let (r, n, l) =
        let b : ParticipantAnswer laws v c (place id) =
          subst (ParticipantAnswer laws v c) e (place_participant-ParticipantAnswer laws v c a) in
        b in
      subst (λ i. (u : Row W P) × Serves p i u) n
        (elim l [
          | inl x ↦ eligible-Serves laws p v r k h x.1.listed x.1.candidate.0
          | inr x ↦ eligible-Serves laws p v r k h x.3.listed x.3.candidate.0
        ])
