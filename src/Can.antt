-- ===== src/Can.antt =====
-- bus.go, misc.go: CAN frames and restricted identifiers.
use gocanopen.Base.{ℕ, Bool, ◌&&◌, ◌||◌, List, [], ◌∷◌, leb, ltb, if◌then◌else◌}

-- `Frame`; `bytes` is the array `Data` of eight bytes.
pub record Frame : Type 0 where
  pub id : ℕ
  pub flags : ℕ
  pub dlc : ℕ
  pub bytes : List ℕ

abbrev pub zeros8 : List ℕ
zeros8 = 0 ∷ 0 ∷ 0 ∷ 0 ∷ 0 ∷ 0 ∷ 0 ∷ 0 ∷ []

-- `NewFrame`
abbrev pub new_frame : ℕ → ℕ → ℕ → Frame
new_frame id flags dlc = record { id = id; flags = flags; dlc = dlc; bytes = zeros8 }

-- `IsIDRestricted`
unfoldable pub is_id_restricted : ℕ → Bool
is_id_restricted can_id =
    leb can_id 0x7f
    || (leb 0x101 can_id && leb can_id 0x180)
    || (leb 0x581 can_id && leb can_id 0x5ff)
    || (leb 0x601 can_id && leb can_id 0x67f)
    || (leb 0x6e0 can_id && leb can_id 0x6ff)
    || leb 0x701 can_id

-- `if *timerNextUs > diff { *timerNextUs = diff }`
abbrev pub at_most : ℕ → ℕ → ℕ
at_most diff timer = if ltb diff timer then diff else timer
