-- ===== src/Kernel/Updates.antt =====
-- The local `data`, `sendOff` and `sendFunc` of the kernels in app/graph: updates are collected, and
-- sent in frames, each a count and that many pairs of a vertex and its value. A frame is written
-- by its own goroutine, so that frames may arrive in another order.
use faa_sgraph.Base.{
  ℕ, ◌+◌, ◌/◌, ◌%◌, ◌^◌, Bool, List, [], ◌∷◌, ◌++◌, ltb, leb, ◌&&◌, if◌then◌else◌, length, drop,
}
use faa_sgraph.Bytes.{uint32_slice_to_byte_slice}

pub record Sender : Type 0 where
  pub updates : List ℕ
  pub send_off : ℕ
  -- The frames that every writer is given, as bytes, in the order in which their goroutines start.
  pub sent : List (List ℕ)

abbrev pub send_threshold : ℕ
send_threshold = 65536

unfoldable pub opened : Sender
opened = record { updates = 0 ∷ []; send_off = 0; sent = [] }

-- `data[0] = uint32((len(updates) - 1) / 2)`
abbrev pub with_count : List ℕ → List ℕ
with_count [] = []
with_count (d ∷ ds) = length ds / 2 % 2 ^ 32 ∷ ds

-- `sendFunc`; the flag says whether there are writers.
unfoldable pub send : Bool → List ℕ → List (List ℕ) → List (List ℕ)
send writers updates sent =
    if ltb 1 (length updates) && writers
    then sent ++ uint32_slice_to_byte_slice (with_count updates) ∷ []
    else sent

-- One update.
unfoldable pub push : Bool → ℕ → ℕ → Sender → Sender
unfolding send
push writers v val s =
    let updates = s.updates ++ v ∷ val ∷ [] in
    if leb (s.send_off + send_threshold) (length updates)
    then record {
      updates = updates ++ 0 ∷ [];
      send_off = length updates;
      sent = send writers (drop s.send_off updates) s.sent;
    }
    else record s { updates = updates }

-- After the loop.
unfoldable pub flush : Bool → Sender → List (List ℕ)
unfolding send
flush writers s = send writers (drop s.send_off s.updates) s.sent
