-- ===== src/Placement/Records.antt =====
-- internal/placement/placement.go: units, the pool, the rows of a conference and an arrival, each
-- with the constructor that refuses a record that no caller could honestly produce.
use hoersaal.Base.{
  ℕ, Bool, true, false, not, List, [], ◌∷◌, Result, ok, err, if◌then◌else◌, ℤ, pos, ltb_ℤ, ◌>>◌,
  refuse_if,
}
use hoersaal.Text.{Text, is_empty, text_eq}
use hoersaal.Dict.{Dict, lookup, insert}
use hoersaal.Float.{Float64, not_a_load}
use hoersaal.Domain.Model.{ConferenceId, Source}
use hoersaal.Domain.Conference.{is_some}

pub data Error : Type 0 where
  empty duplicate not_a_load_error not_a_state not_a_count not_a_bitrate no_ceiling : Error
  not_an_arrival : Error

abbrev pub UnitId : Type 0
UnitId = Text

unfoldable pub new_unit_id : Text → Result Error UnitId
new_unit_id v = if is_empty v then err empty else ok v

-- The zero value of the struct is `unnamed`: the only state outside the three.
pub data State : Type 0 where
  admitting draining gone unnamed : State

unfoldable pub known : State → Bool
known unnamed = false
known admitting = true
known draining = true
known gone = true

unfoldable pub is_admitting : State → Bool
is_admitting admitting = true
is_admitting draining = false
is_admitting gone = false
is_admitting unnamed = false

-- `reported_at` counts from Go's zero time.
pub record UnitRow (W : Type 0) : Type 0 where
  pub id : UnitId
  pub effective_load : W
  pub reported_at : ℕ
  pub state : State

pub record Pool (W : Type 0) : Type 0 where
  pub units : List (UnitRow W)

pub record Carrying (W : Type 0) : Type 0 where
  pub unit : UnitId
  pub participants : ℤ
  pub published_bitrate : W

pub record Conference (W : Type 0) : Type 0 where
  pub id : ConferenceId
  pub unit_ceiling : ℤ
  pub carrying : List (Carrying W)

pub record Arrival : Type 0 where
  pub publishes : Bool
  pub sources : List Source

unfoldable pub new_arrival : Bool → List Source → Result Error Arrival
new_arrival true [] = err not_an_arrival
new_arrival true (s ∷ sources) = ok (record { publishes = true; sources = s ∷ sources })
new_arrival false [] = ok (record { publishes = false; sources = [] })
new_arrival false (s ∷ sources) = err not_an_arrival

-- The loop that `NewPool` and `NewConference` share: every row names a unit, and no unit has two.
unfoldable pub check_rows : Dict UnitId (Unit {0}) → List UnitId → Result Error (Unit {0})
check_rows held [] = ok tt
check_rows held (u ∷ us) =
    let rest = check_rows (insert u tt held) us in
    if is_empty u then err empty else if is_some (lookup u held) then err duplicate else rest

module _ {W : Type 0} where
  unfoldable pub row_ids : List (UnitRow W) → List UnitId
  row_ids [] = []
  row_ids (u ∷ us) = u.id ∷ row_ids us

  unfoldable pub carrying_ids : List (Carrying W) → List UnitId
  carrying_ids [] = []
  carrying_ids (c ∷ cs) = c.unit ∷ carrying_ids cs

  unfoldable pub new_pool : List (UnitRow W) → Result Error (Pool W)
  unfolding check_rows row_ids
  new_pool units = do check_rows [] (row_ids units); ok (record { units = units })

  unfoldable pub new_conference : ConferenceId → ℤ → List (Carrying W) → Result Error (Conference W)
  unfolding check_rows carrying_ids
  new_conference id unit_ceiling carrying = do
    refuse_if (is_empty id) empty
    refuse_if (ltb_ℤ unit_ceiling (pos 1)) no_ceiling
    check_rows [] (carrying_ids carrying)
    ok (record { id = id; unit_ceiling = unit_ceiling; carrying = carrying })

module _ {W : Type 0} ⦃f : Float64 W⦄ where
  unfoldable pub new_unit : UnitId → W → ℕ → State → Result Error (UnitRow W)
  new_unit id load at state = do
    refuse_if (is_empty id) empty
    refuse_if (not_a_load load) not_a_load_error
    refuse_if (not (known state)) not_a_state
    ok (record { id = id; effective_load = load; reported_at = at; state = state })

  unfoldable pub new_carrying : UnitId → ℤ → W → Result Error (Carrying W)
  new_carrying unit participants bitrate = do
    refuse_if (is_empty unit) empty
    refuse_if (ltb_ℤ participants (pos 0)) not_a_count
    refuse_if (not_a_load bitrate) not_a_bitrate
    ok (record { unit = unit; participants = participants; published_bitrate = bitrate })
