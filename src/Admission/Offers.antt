-- ===== src/Admission/Offers.antt =====
-- internal/admission/admission.go: the names that an admission mints, and the sources made of offers.
use hoersaal.Base.{
  ℕ, suc, ◌≡◌, ◌≢◌, refl, sym, ◌∙◌, ap, subst, inl, inr, true, false, not, ◌&&◌, Option, none, some,
  List, [], ◌∷◌, arith, Result, ok, err, if◌then◌else◌, pos, ◌≤ℤ◌, nat_eq, length, ◌==◌, ==_iff,
  >>=-eq-ok, Option-cases, Bool-cases, Result-cases,
}
use hoersaal.Text.{Text, is_empty, is_empty-false, text_eq}
use hoersaal.Domain.Model
use hoersaal.Domain.Model.{
  ParticipantId, Role, Kind, audio, video, known, Source, new_participant_id, new_role,
  new_source_id, new_source,
}
use hoersaal.Admission.Records.{Offer, Request, Seams, no_name}
use hoersaal.Admission.Desk.{kind_of, Stop, fault, need, need_ok, mint_sources, mint}

pub need-eq-ok {ℓ} :
    {A : Type ℓ} (why : Stop) (o : Option A) (a : A) → need why o ≡ ok a → o ≡ some a
unfolding need
need-eq-ok why none a h = cc
need-eq-ok why (some b) a h = cc

pub need_ok-eq-ok {ℓ κ} :
    {E : Type ℓ} {A : Type κ} (why : Stop) (r : Result E A) (a : A)
    → need_ok why r ≡ ok a
    → r ≡ ok a
unfolding need_ok
need_ok-eq-ok why (ok b) a h = cc
need_ok-eq-ok why (err e) a h = cc

-- The constructor of an identifier gives the text itself, which is not empty.
named :
    {E : Type 0} (e : E) (v r : Text)
    → (if is_empty v then err e else ok v) ≡ ok r
    → (v ≡ r) × (r ≢ [])
named e v r h = elim (Bool-cases (is_empty v)) [
  | inl q ↦ absurd (let bad : err e ≡ ok r = rw q at h in cc)
  | inr q ↦
      let full : ok v ≡ ok r = rw q at h in
      let same : v ≡ r = cc in (same, subst (λ (x : Text). x ≢ []) same (is_empty-false v q))
]

named_source : (v r : Text) → new_source_id v ≡ ok r → (v ≡ r) × (r ≢ [])
unfolding new_source_id
named_source v r h = named Model.empty v r h

named_participant : (v r : Text) → new_participant_id v ≡ ok r → (v ≡ r) × (r ≢ [])
unfolding new_participant_id
named_participant v r h = named Model.empty v r h

pub named_role : (v r : Text) → new_role v ≡ ok r → (v ≡ r) × (r ≢ [])
unfolding new_role
named_role v r h = named Model.empty v r h

-- A source is the offer of it: its kind is audio or video, and it has a layer.
pub record IsOffered (o : Offer) (s : Source) : Type 0 where
  pub is_named : s.id ≢ []
  pub kind_kept : s.kind ≡ o.kind
  pub kind_known : known o.kind ≡ true
  pub layers_kept : s.layers ≡ o.layers
  pub has_layer : pos 1 ≤ℤ o.layers

kind_of_lem : (t : Text) (k : Kind) → kind_of t ≡ some k → (k ≡ t) × (known t ≡ true)
unfolding kind_of known
kind_of_lem t k h = elim (Bool-cases (t == audio)) [
  | inl q ↦
      let is_audio : t ≡ audio = (==_iff t audio).0 q in
      let found : some audio ≡ some k = rw q at h in
      let same : audio ≡ k = cc in (sym same ∙ sym is_audio, ground arith)
  | inr q ↦ elim (Bool-cases (t == video)) [
    | inl w ↦
        let is_video : t ≡ video = (==_iff t video).0 w in
        let found : some video ≡ some k = rw (q, w) at h in
        let same : video ≡ k = cc in (sym same ∙ sym is_video, ground arith)
    | inr w ↦ absurd (let bad : none ≡ some k = rw (q, w) at h in cc)
  ]
]

new_source-IsOffered :
    (id : Text) (p : ParticipantId) (k : Kind) (o : Offer) (s : Source)
    → kind_of o.kind ≡ some k
    → new_source id p k o.layers ≡ ok s
    → IsOffered o s × (s.publisher ≡ p) × (s.id ≡ id)
unfolding new_source
new_source-IsOffered id p k o s e h =
    let whole : Source = record { id = id; publisher = p; kind = k; layers = o.layers } in
    let made : new_source id p k o.layers ≡ ok whole = ground arith in
    let same : whole ≡ s = cc in
    let (kind_kept, kind_known) = kind_of_lem o.kind k e in
    subst (λ (t : Source). IsOffered o t × (t.publisher ≡ p) × (t.id ≡ id)) same
      (
        record {
          is_named = is_empty-false id (ground arith);
          kind_kept = kind_kept;
          kind_known = kind_known;
          layers_kept = refl;
          has_layer = ground arith;
        },
        refl,
        refl,
      )

module _ {W U : Type 0} (seams : Seams W U) where
  -- One source for each offer, in the order of the offers, published by the participant and named by
  -- the names from the n-th on.
  abbrev pub AreOffered : ℕ → ParticipantId → List Offer → List Source → Type 0
  AreOffered n p [] [] = Unit
  AreOffered n p [] (s ∷ ss) = ⊥
  AreOffered n p (o ∷ os) [] = ⊥
  AreOffered n p (o ∷ os) (s ∷ ss) =
      IsOffered o s × (s.publisher ≡ p) × (seams.name n ≡ some s.id) × AreOffered (suc n) p os ss

  too_few : (os : List Offer) (ss : List Source) → [] ≡ ss → length ss ≡ suc (length os) → ⊥
  too_few os ss e l = omega (arith, l, ap length e)

  mint_sources_lem :
      (n : ℕ) (p : ParticipantId) (os : List Offer) (ss : List Source)
      → mint_sources seams n p os ≡ ok ss
      → length ss ≡ length os
      → AreOffered n p os ss
  unfolding mint_sources
  mint_sources_lem n p [] [] h l = tt
  mint_sources_lem n p [] (s ∷ ss) h l = omega (arith, l)
  mint_sources_lem n p (o ∷ os) ss h l = elim (Option-cases (kind_of o.kind)) [
    | inl e ↦
        let stopped : mint_sources seams n p (o ∷ os) ≡ ok [] = rw (e, mint_sources) refl in
        absurd (too_few os ss (cc) l)
    | inr (k, e) ↦
        let (name, named_n, h₁) =
          >>=-eq-ok (need (fault no_name) (seams.name n)) _ (rw (e, mint_sources) at h) in
        let (id, made, h₂) = >>=-eq-ok (need_ok (fault no_name) (new_source_id name)) _ h₁ in
        elim (Result-cases (new_source id p k o.layers)) [
          | inl (why, q) ↦
              let stopped : new_source id p k o.layers ≡ err why = q in
              absurd (too_few os ss (let nil : ok [] ≡ ok ss = rw q at h₂ in cc) l)
          | inr (s, q) ↦
              let (more, minted, h₃) = >>=-eq-ok (mint_sources seams (suc n) p os) _ (rw q at h₂) in
              let all : s ∷ more ≡ ss = cc in
              let fewer : length more ≡ length os = omega (arith, l, ap length all) in
              let id_n : seams.name n ≡ some id =
                need-eq-ok (fault no_name) (seams.name n) name named_n
                ∙ ap some
                    (named_source name id
                      (need_ok-eq-ok (fault no_name) (new_source_id name) id made)).0 in
              let (offered, publisher, is_id) = new_source-IsOffered id p k o s e q in
              subst (λ (ts : List Source). AreOffered n p (o ∷ os) ts) all
                (
                  offered,
                  publisher,
                  id_n ∙ ap some (sym is_id),
                  mint_sources_lem (suc n) p os more minted fewer,
                )
        ]
  ]

  pub mint_lem :
      (req : Request) (p : ParticipantId) (ss : List Source)
      → (req.publishing ≡ false → req.offers ≡ [])
      → mint seams req ≡ ok (p, ss)
      → (req.publishing && not (nat_eq (length ss) (length req.offers))) ≡ false
      → (seams.name 0 ≡ some p) × (p ≢ []) × AreOffered 1 p req.offers ss
  unfolding mint
  mint_lem req p ss none_offered h l =
      let (name, named_0, h₁) = >>=-eq-ok (need (fault no_name) (seams.name 0)) _ h in
      let (id, made, h₂) = >>=-eq-ok (need_ok (fault no_name) (new_participant_id name)) _ h₁ in
      let (sources, minted, h₃) =
        >>=-eq-ok (if not req.publishing then ok [] else mint_sources seams 1 id req.offers) _ h₂ in
      minted_lem id sources h₃ (need-eq-ok (fault no_name) (seams.name 0) name named_0)
        (named_participant name id
          (need_ok-eq-ok (fault no_name) (new_participant_id name) id made))
        minted
    where
      done : List Source → Result Stop (List Source)
      done x = ok x

      no_sources : (x : List Source) → done [] ≡ ok x → [] ≡ x
      no_sources x h = cc

      ready : ParticipantId → List Source → Result Stop (ParticipantId × List Source)
      ready a b = ok (a, b)

      minted_lem :
          {name : Text} (id : ParticipantId) (sources : List Source)
          → ready id sources ≡ ready p ss
          → seams.name 0 ≡ some name
          → (name ≡ id) × (id ≢ [])
          → (if not req.publishing then ok [] else mint_sources seams 1 id req.offers) ≡ ok sources
          → (seams.name 0 ≡ some p) × (p ≢ []) × AreOffered 1 p req.offers ss
      minted_lem id sources e named_0 (same, full) minted =
          let same_id : id ≡ p = cc in
          let same_sources : sources ≡ ss = cc in
          let taken : AreOffered 1 id req.offers sources = elim (Bool-cases req.publishing) [
            | inl q ↦ mint_sources_lem 1 id req.offers sources (rw q at minted) (ground arith)
            | inr q ↦
                let nil : [] ≡ sources = no_sources sources (rw q at minted) in
                rw (none_offered q, sym nil) tt
          ] in
          (
            named_0 ∙ ap some (same ∙ same_id),
            subst (λ (x : Text). x ≢ []) same_id full,
            subst (λ (x : ParticipantId). AreOffered 1 x req.offers ss) same_id
                (subst (λ (x : List Source). AreOffered 1 id req.offers x) same_sources taken),
          )
