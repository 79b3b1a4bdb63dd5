-- ===== src/Catalog.antt =====
-- The shared expression catalog: embedded/shared/link/expression_catalog.h.
pub mod Laws
use Prim.Native.String.{String}
use desky.Prelude.{
  ℕ, Bool, true, false, ◌||◌, Option, none, some, List, [], ◌∷◌, ◌==◌, if◌then◌else◌,
}

pub record Entry : Type 0 where
  pub id : ℕ
  pub name : String
  pub priority : ℕ
  pub play_once : Bool
  pub hold_ms : ℕ
  pub eye : ℕ
  pub sound : ℕ
  pub motion : ℕ
  pub neck_pose : ℕ
  pub arm_pose : ℕ

abbrev pub boot : ℕ
boot = 0

abbrev pub blink : ℕ
blink = 3

abbrev pub surprised : ℕ
surprised = 7

abbrev pub angry : ℕ
angry = 8

abbrev pub scared : ℕ
scared = 9

-- `sound_none`, `motion_none`, `neck_none` and `arm_none` of the source.
abbrev pub media_none : ℕ
media_none = 0xFF

abbrev pub surprised_hold_ms : ℕ
surprised_hold_ms = 1500

-- A row whose media fields carry NONE.
abbrev face : ℕ → String → ℕ → Bool → ℕ → ℕ → Entry
face id name priority play_once hold_ms eye = record {
  id = id;
  name = name;
  priority = priority;
  play_once = play_once;
  hold_ms = hold_ms;
  eye = eye;
  sound = media_none;
  motion = media_none;
  neck_pose = media_none;
  arm_pose = media_none;
}

-- A row with media: each of its four cues has the number `cue`.
abbrev media : ℕ → String → ℕ → ℕ → ℕ → Entry
media id name priority eye cue = record {
  id = id;
  name = name;
  priority = priority;
  play_once = false;
  hold_ms = 0;
  eye = eye;
  sound = cue;
  motion = cue;
  neck_pose = cue;
  arm_pose = cue;
}

pub table : List Entry
table =
    face 0 "boot" 0 false 0 0
    ∷ face 1 "happy" 1 false 0 3
    ∷ face 2 "sad" 3 false 0 4
    ∷ face 3 "blink" 0 false 0 0
    ∷ face 4 "alert" 4 false 0 8
    ∷ face 6 "curious" 2 false 0 17
    ∷ face surprised "surprised" 5 true surprised_hold_ms 8
    ∷ media angry "angry" 8 1 0
    ∷ media scared "scared" 9 16 1
    ∷ media 10 "excited" 7 2 2
    ∷ media 11 "confused" 6 9 3
    ∷ []

pub find : ℕ → List Entry → Option Entry
find id [] = none
find id (e ∷ es) = if e.id == id then some e else find id es

unfoldable pub lookup : ℕ → Option Entry
unfolding find table
lookup id = find id table

unfoldable pub priority_for : ℕ → ℕ
unfolding lookup
priority_for id = elim (lookup id) [ none ↦ 0 | some e ↦ e.priority ]

unfoldable pub is_play_once : ℕ → Bool
unfolding lookup
is_play_once id = elim (lookup id) [ none ↦ false | some e ↦ e.play_once ]

unfoldable pub hold_ms_for : ℕ → ℕ
unfolding lookup
hold_ms_for id = elim (lookup id) [ none ↦ 0 | some e ↦ e.hold_ms ]

abbrev pub is_neutral : ℕ → Bool
is_neutral id = id == boot || id == blink
