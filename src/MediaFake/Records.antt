-- ===== src/MediaFake/Records.antt =====
-- internal/mediafake/mediafake.go: the units of a fabric, and the knobs that a test sets. A Go map to
-- `bool` whose values are all `true` is a dictionary to the unit type.
use hoersaal.Base.{
  ℕ, Bool, true, false, Option, none, some, List, [], ◌∷◌, Result, ok, err, if◌then◌else◌, ℤ, pos,
  negsuc, not,
}
use hoersaal.Text.{Text, codes, is_empty, text_eq, sort_by}
use hoersaal.Dict.{Dict, lookup, insert, delete, keys}
use hoersaal.Time.{Duration}
use hoersaal.Domain.Conference.{is_some}
use hoersaal.Domain.Model.{ConferenceId, ParticipantId, SourceId, Source, Subscription}
use hoersaal.MediaPort.{Profile, LinkId}

abbrev pub Refusable : Type 0
Refusable = Text

abbrev pub opening_a_conference : Refusable
opening_a_conference = codes "OpenConference"

abbrev pub admitting_a_publisher : Refusable
admitting_a_publisher = codes "AdmitPublisher"

abbrev pub admitting_a_subscriber : Refusable
admitting_a_subscriber = codes "AdmitSubscriber"

abbrev pub carrying_a_link : Refusable
carrying_a_link = codes "LinkConference"

abbrev pub Set : Type 0
Set = Dict Text (Unit {0})

pub record Held : Type 0 where
  pub profile : Profile
  pub publishers : Set
  pub subscribers : Set
  pub sources : Dict SourceId Source
  pub receptions : Dict ParticipantId (List Subscription)
  pub links : Dict Text LinkId

unfoldable pub new_held : Profile → Held
new_held p = record {
  profile = p;
  publishers = [];
  subscribers = [];
  sources = [];
  receptions = [];
  links = [];
}

-- `servable` is none until `Serves` is called.
pub record FakeUnit (W : Type 0) : Type 0 where
  pub name : Text
  pub alive : Bool
  pub load : W
  pub latency : Duration
  pub accept_at_most : ℤ
  pub servable : Option Set
  pub lost : Set
  pub refusing : Set
  pub conferences : Dict ConferenceId Held
  pub links : ℕ

abbrev pub Fabric : Type 0 → Type 0
Fabric W = Dict Text (FakeUnit W)

-- The loops of `Serves`, `Refuse` and `Restart`, and of `Allow`.
unfoldable pub put_all : List Text → Set → Set
put_all [] set = set
put_all (x ∷ xs) set = put_all xs (insert x tt set)

unfoldable pub drop_all : List Text → Set → Set
drop_all [] set = set
drop_all (x ∷ xs) set = drop_all xs (delete x set)

-- The errors of `Add`.
pub data AddError : Type 0 where
  no_name no_clock name_taken : AddError

module _ {W : Type 0} where
  -- The unit that `Add` makes.
  unfoldable pub fresh : W → Text → FakeUnit W
  fresh zero_load name = record {
    name = name;
    alive = true;
    load = zero_load;
    latency = pos 0;
    accept_at_most = negsuc 0;
    servable = none;
    lost = [];
    refusing = [];
    conferences = [];
    links = 0;
  }

  -- `zero_load` is the zero value of `float64`, and `has_clock` whether a clock was handed over.
  unfoldable pub add : W → Text → Bool → Fabric W → Result AddError (Fabric W)
  unfolding fresh
  add zero_load name has_clock units =
      if is_empty name
      then err no_name
      else if not has_clock
      then err no_clock
      else if is_some (lookup name units)
      then err name_taken
      else ok (insert name (fresh zero_load name) units)

  unfoldable pub set_load : W → FakeUnit W → FakeUnit W
  set_load l u = record u { load = l }

  unfoldable pub set_latency : Duration → FakeUnit W → FakeUnit W
  set_latency d u = record u { latency = d }

  unfoldable pub set_accept_at_most : ℤ → FakeUnit W → FakeUnit W
  set_accept_at_most n u = record u { accept_at_most = n }

  unfoldable pub serves : List Text → FakeUnit W → FakeUnit W
  unfolding put_all
  serves codecs u = record u { servable = some (put_all codecs []) }

  unfoldable pub refuse_all : List Refusable → FakeUnit W → FakeUnit W
  unfolding put_all
  refuse_all ops u = record u { refusing = put_all ops u.refusing }

  unfoldable pub allow : List Refusable → FakeUnit W → FakeUnit W
  unfolding drop_all
  allow ops u = record u { refusing = drop_all ops u.refusing }

  -- `Die`, less the fault streams.
  unfoldable pub die : FakeUnit W → FakeUnit W
  die u = record u { alive = false }

  unfoldable pub restart : FakeUnit W → FakeUnit W
  unfolding put_all
  restart u = record u {
    alive = true;
    lost = put_all (keys u.conferences) u.lost;
    conferences = [];
  }

  -- `Conferences`, in the order of their identifiers.
  unfoldable pub conferences : FakeUnit W → List ConferenceId
  conferences u = sort_by (λ c. c) (keys u.conferences)
