-- ===== src/Admission/Requests.antt =====
-- internal/admission/admission.go: what a client's message is read as.
use mathlib.Core.Path.{ap₂}
use hoersaal.Base.{
  ◌≡◌, ◌≢◌, refl, ◌∙◌, ap, subst, inl, inr, Bool, true, false, none, some, List, [], ◌∷◌, arith,
  length, ◌==◌, ==_iff, Option-cases, Bool-cases,
}
use hoersaal.Text.{Text, is_empty-false, text_eq}
use hoersaal.Wire.{Message}
use hoersaal.Admission.Records.{type_request, Offer, Request, Seams}
use hoersaal.Admission.Desk.{usable, read_request}

no_offers : (os : List Offer) → length os ≡ 0 → os ≡ []
no_offers [] h = refl
no_offers (o ∷ os) h = absurd (omega (arith, h))

module _ {W U : Type 0} (seams : Seams W U) where
  -- What was sent is a request of a client: of this type, with a payload that the decoder reads as
  -- one request and nothing after it, that names a room and has a credential, and that offers sources
  -- exactly where it publishes.
  pub record IsRequest (m : Message) (req : Request) : Type 0 where
    pub typed : m.type ≡ type_request
    pub payload : Text
    pub carried : m.payload ≡ some payload
    pub not_empty : payload ≢ []
    pub decoded : seams.read payload ≡ some (req, false)
    pub has_room : req.conference ≢ []
    pub has_credential : req.credential ≢ []
    pub offers_when_publishing : req.publishing ≡ true → req.offers ≢ []
    pub offers_none : req.publishing ≡ false → req.offers ≡ []

  usable_lem :
      (r : Request × Bool) (req : Request)
      → usable seams r ≡ some req
      → (r.0 ≡ req)
        × (r.1 ≡ false)
        × (req.conference ≢ [])
        × (req.credential ≢ [])
        × (req.publishing ≡ true → req.offers ≢ [])
        × (req.publishing ≡ false → req.offers ≡ [])
  unfolding usable
  usable_lem (q, more) req h =
      let found : usable seams (q, more) ≡ some q = ground arith in
      let same : q ≡ req = cc in
      subst Usable same (
        refl,
        ground arith,
        is_empty-false q.conference (ground arith),
        is_empty-false q.credential (ground arith),
        λ p e. let none_offered : length q.offers ≡ 0 = ap length e in ground arith,
        λ p. no_offers q.offers (ground arith),
      )
    where
      Usable : Request → Type 0
      Usable x =
          (q ≡ x)
          × (more ≡ false)
          × (x.conference ≢ [])
          × (x.credential ≢ [])
          × (x.publishing ≡ true → x.offers ≢ [])
          × (x.publishing ≡ false → x.offers ≡ [])

  pub read_request_lem :
      (m : Message) (req : Request) → read_request seams m ≡ some req → IsRequest m req
  unfolding read_request
  read_request_lem m req h = elim (Bool-cases (m.type == type_request)) [
    | inr q ↦ absurd (let bad : none ≡ some req = rw (q, read_request) at h in cc)
    | inl q ↦ elim (Option-cases m.payload) [
      | inl e ↦ absurd (let bad : none ≡ some req = rw (q, e, read_request) at h in cc)
      | inr ([], e) ↦ absurd (let bad : none ≡ some req = rw (q, e, read_request) at h in cc)
      | inr (b ∷ bs, e) ↦ elim (Option-cases (seams.read (b ∷ bs))) [
        | inl d ↦ absurd (let bad : none ≡ some req = rw (q, e, d, read_request) at h in cc)
        | inr (r, d) ↦
            let (same, last, room, credential, some_offered, none_offered) =
              usable_lem r req (rw (q, e, d, read_request) at h) in
            record {
              typed = (==_iff m.type type_request).0 q;
              payload = b ∷ bs;
              carried = e;
              not_empty = λ n. cc;
              decoded = d ∙ ap some (ap₂ (λ x y. (x, y)) same last);
              has_room = room;
              has_credential = credential;
              offers_when_publishing = some_offered;
              offers_none = none_offered;
            }
      ]
    ]
  ]
