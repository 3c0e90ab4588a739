-- ===== src/Ring/Queue.antt =====
-- What a ring promises: a bounded FIFO of bytes, oldest first, that counts what it refuses.
use qiran_firmware.Base.{ℕ, Bool, true, false, Option, none, some, List, [], ltb, length, u32}
use qiran_firmware.Base.{◌+◌, ◌∷◌, ◌++◌, if◌then◌else◌}
use qiran_firmware.Ring.{Op, push_byte, pop_byte, Reply, pushed, popped}

pub record Queue : Type 0 where
  pub bytes : List ℕ
  pub refused : ℕ

unfoldable pub push : ℕ → Queue → ℕ → Bool × Queue
push size q byte =
    if ltb (length q.bytes) size
    then (true, record q { bytes = q.bytes ++ (byte ∷ []) })
    else (false, record q { refused = u32 (q.refused + 1) })

pop_of : List ℕ → ℕ → Option ℕ × Queue
pop_of [] n = (none, record { bytes = []; refused = n })
pop_of (b ∷ bs) n = (some b, record { bytes = bs; refused = n })

unfoldable pub pop : Queue → Option ℕ × Queue
unfolding pop_of
pop q = pop_of q.bytes q.refused

unfoldable pub run : ℕ → Queue → List Op → List Reply
run size q [] = []
run size q (push_byte b ∷ ops) = let (done, q') = push size q b in pushed done ∷ run size q' ops
run size q (pop_byte ∷ ops) = let (byte, q') = pop q in popped byte ∷ run size q' ops
