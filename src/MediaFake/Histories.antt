-- ===== src/MediaFake/Histories.antt =====
-- internal/mediafake/mediafake.go: any history of calls on a unit of a fabric, and of closings by its
-- other units. The other units that a call sees are arbitrary.
use hoersaal.Base.{ℕ, ℤ, List}
use hoersaal.Text.{Text}
use hoersaal.Time.{Duration}
use hoersaal.Domain.Model.{ConferenceId, ParticipantId, Source, Subscription}
use hoersaal.MediaPort.{Profile, Reference}
use hoersaal.MediaFake.Records.{
  Refusable, FakeUnit, Fabric, fresh, set_load, set_latency, set_accept_at_most, serves, refuse_all,
  allow, die, restart,
}
use hoersaal.MediaFake.Units.{
  open_conference, admit_publisher, admit_subscriber, set_reception, link_conference, unlink,
  close_conference,
}
use hoersaal.MediaFake.Books.{
  IsBooked, open_conference-IsBooked, admit_publisher-IsBooked, admit_subscriber-IsBooked,
  set_reception-IsBooked, link_conference-IsBooked, unlink-IsBooked, close_conference-IsBooked,
}

module _ {W : Type 0} where
  -- What a test sets, in one call.
  pub data Knob : FakeUnit W → FakeUnit W → Type 0 where
    loads : {u : FakeUnit W} (l : W) → Knob u (set_load l u)
    slows : {u : FakeUnit W} (d : Duration) → Knob u (set_latency d u)
    limits : {u : FakeUnit W} (n : ℤ) → Knob u (set_accept_at_most n u)
    serving : {u : FakeUnit W} (codecs : List Text) → Knob u (serves codecs u)
    refusing : {u : FakeUnit W} (ops : List Refusable) → Knob u (refuse_all ops u)
    allowing : {u : FakeUnit W} (ops : List Refusable) → Knob u (allow ops u)
    dying : {u : FakeUnit W} → Knob u (die u)

  -- One call.
  pub data Step : FakeUnit W → FakeUnit W → Type 0 where
    turns : {u v : FakeUnit W} → Knob u v → Step u v
    restarts : {u : FakeUnit W} → Step u (restart u)
    opens : {u : FakeUnit W} (c : ConferenceId) (p : Profile) → Step u (open_conference c p u).1
    closes : {u : FakeUnit W} (c : ConferenceId) → Step u (close_conference c u).1
    admits_publisher :
        {u : FakeUnit W} (c : ConferenceId) (p : ParticipantId) (sources : List Source)
        → Step u (admit_publisher c p sources u).1
    admits_subscriber :
        {u : FakeUnit W} (c : ConferenceId) (p : ParticipantId) → Step u (admit_subscriber c p u).1
    sets_reception :
        {u : FakeUnit W} (sort : List Source → List Source) (units : Fabric W) (c : ConferenceId)
        (p : ParticipantId) (entries : List Subscription)
        → Step u (set_reception sort units c p entries u).1
    links_conference :
        {u : FakeUnit W} (decimal : ℕ → Text) (units : Fabric W) (c : ConferenceId) (r : Reference)
        → Step u (link_conference decimal units c r u).1
    is_unlinked : {u : FakeUnit W} (name : Text) (c : ConferenceId) → Step u (unlink name c u)

  pub data Reached : FakeUnit W → Type 0 where
    made : (zero_load : W) (name : Text) → Reached (fresh zero_load name)
    next : {u v : FakeUnit W} → Reached u → Step u v → Reached v

  Knob-IsBooked : {u v : FakeUnit W} → Knob u v → IsBooked u → IsBooked v
  unfolding set_load set_latency set_accept_at_most serves refuse_all allow die
  Knob-IsBooked (loads l) k = k
  Knob-IsBooked (slows d) k = k
  Knob-IsBooked (limits n) k = k
  Knob-IsBooked (serving codecs) k = k
  Knob-IsBooked (refusing ops) k = k
  Knob-IsBooked (allowing ops) k = k
  Knob-IsBooked dying k = k

  Step-IsBooked : {u v : FakeUnit W} → Step u v → IsBooked u → IsBooked v
  unfolding restart
  Step-IsBooked (turns s) k = Knob-IsBooked s k
  Step-IsBooked restarts k = tt
  Step-IsBooked {u = u} (opens c p) k = open_conference-IsBooked c p u k
  Step-IsBooked {u = u} (closes c) k = close_conference-IsBooked c u k
  Step-IsBooked {u = u} (admits_publisher c p ss) k = admit_publisher-IsBooked c p ss u k
  Step-IsBooked {u = u} (admits_subscriber c p) k = admit_subscriber-IsBooked c p u k
  Step-IsBooked {u = u} (sets_reception sort units c p es) k =
      set_reception-IsBooked sort units c p es u k
  Step-IsBooked {u = u} (links_conference d units c r) k = link_conference-IsBooked d units c r u k
  Step-IsBooked {u = u} (is_unlinked name c) k = unlink-IsBooked name c u k

  -- After any history of what a test sets, of restarts, of calls of the port with whatever other
  -- units in the fabric, and of closings by other units, in every conference that a unit holds each
  -- source is filed under its own identifier, is one of an admitted publisher and lies inside the
  -- profile, and each reception is one of an admitted subscriber with entries that name it.
  pub Reached-IsBooked : {u : FakeUnit W} → Reached u → IsBooked u
  unfolding fresh
  Reached-IsBooked (made z name) = tt
  Reached-IsBooked (next r s) = Step-IsBooked s (Reached-IsBooked r)
