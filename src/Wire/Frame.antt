-- ===== src/Wire/Frame.antt =====
-- EDM/Can/CanFrame.h: a CAN-FD frame, and the frames that the session layers build.
use fluid_edm.Base.{ℕ, ◌<◌, ◌≡◌, Bool, true, List, length, replicate, All}

pub record CanFrame : Type 0 where
  pub id : ℕ
  pub len : ℕ
  pub fd : Bool
  pub brs : Bool
  pub data_bytes : List ℕ

-- the constructor `CanFrame(id_, len_)`: the payload starts as zeroes
unfoldable pub new_frame : ℕ → ℕ → CanFrame
new_frame id len = record { id = id; len = len; fd = true; brs = true; data_bytes = replicate 64 0 }

abbrev pub IsByte : ℕ → Type 0
IsByte b = b < 256

-- What the field types say of a frame: 64 bytes of payload.
pub record IsFrame (f : CanFrame) : Type 0 where
  pub size : length f.data_bytes ≡ 64
  pub bytes : All IsByte f.data_bytes
