-- ===== src/Video.antt =====
-- services/unifi-video-kafka/stream/runner.go: extractFrame, and the loop of readFrames that takes
-- the output of ffmpeg apart. The output comes in the chunks that the pipe hands over.
pub mod Frames
pub mod Chunks
pub mod Images
use roach.Base.{
  ℕ, zero, suc, ◌+◌, ◌-◌, ◌*◌, Bool, true, false, List, [], ◌∷◌, ◌++◌, Option, none, some, ltb,
  if◌then◌else◌, length, take, drop, count, not,
}
use roach.Base.Strings.{has_prefix}

abbrev pub Bytes : Type 0
Bytes = List ℕ

abbrev pub jpeg_soi : Bytes
jpeg_soi = 0xFF ∷ 0xD8 ∷ []

abbrev pub jpeg_eoi : Bytes
jpeg_eoi = 0xFF ∷ 0xD9 ∷ []

abbrev pub next_index : Option ℕ → Option ℕ
next_index none = none
next_index (some i) = some (suc i)

-- bytes.Index
unfoldable pub index : Bytes → Bytes → Option ℕ
index [] sep = if has_prefix [] sep then some 0 else none
index (c ∷ s) sep = if has_prefix (c ∷ s) sep then some 0 else next_index (index s sep)

abbrev pub or_here : Bool → Option ℕ → Option ℕ
or_here here none = if here then some 0 else none
or_here here (some i) = some (suc i)

-- bytes.LastIndex
unfoldable pub last_index : Bytes → Bytes → Option ℕ
last_index [] sep = if has_prefix [] sep then some 0 else none
last_index (c ∷ s) sep = or_here (has_prefix (c ∷ s) sep) (last_index s sep)

-- extractFrame: the frame and what remains after it.
unfoldable pub extract_frame : Bytes → Option (Bytes × Bytes)
extract_frame bytes = elim (index bytes jpeg_soi) [
  | none ↦ none
  | some soi_idx ↦ elim (index (drop (soi_idx + 2) bytes) jpeg_eoi) [
    | none ↦ none
    | some eoi_idx ↦
        let frame_end = soi_idx + 2 + eoi_idx + 2 in
        some (take (frame_end - soi_idx) (drop soi_idx bytes), drop frame_end bytes)
  ]
]

-- The inner loop of readFrames, on fuel: the frames, and what is left in the buffer.
unfoldable pub extract_all : ℕ → Bytes → List Bytes × Bytes
extract_all zero buf = ([], buf)
extract_all (suc fuel) buf = elim (extract_frame buf) [
  | none ↦ ([], buf)
  | some (frame, remaining) ↦
      let (frames, rest) = extract_all fuel remaining in (frame ∷ frames, rest)
]

-- A frame has four bytes at least, so as many rounds as there are bytes are enough.
abbrev pub frames_of : Bytes → List Bytes × Bytes
frames_of buf = extract_all (length buf) buf

abbrev pub max_buffer : ℕ
max_buffer = 2 * 1024 * 1024

abbrev from_index : Bytes → Option ℕ → Bytes
from_index buf none = []
from_index buf (some zero) = []
from_index buf (some (suc idx)) = drop (suc idx) buf

-- What keeps the buffer from growing without bound.
unfoldable pub trim : Bytes → Bytes
trim buf = if ltb max_buffer (length buf) then from_index buf (last_index buf jpeg_soi) else buf

-- readFrames until the pipe ends: the frames that are published, or tried to be, in their order.
unfoldable pub read_frames : Bytes → List Bytes → List Bytes
read_frames buf [] = []
read_frames buf (chunk ∷ chunks) =
    let (frames, rest) = frames_of (buf ++ chunk) in frames ++ read_frames (trim rest) chunks

-- frameCount, where some frames fail to be published.
unfoldable pub frame_count : (Bytes → Bool) → List Bytes → ℕ
frame_count fails chunks = count (λ f. not (fails f)) (read_frames [] chunks)
