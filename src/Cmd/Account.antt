-- ===== src/Cmd/Account.antt =====
-- Every command received is completed, rejected, failed or running, and answered when it ends.
use qiran_firmware.Base.{
  ℕ, ◌⊎◌, sym, ap, Option, some, ◌∙◌, refl, inl, inr, Bool, true, false, not, List, [], arith, leb,
}
use qiran_firmware.Base.{u32, update, if_holds, option_holds, ◌+◌, ◌-◌, ◌^◌, ◌<◌}
use qiran_firmware.Base.{◌≡◌, ◌&&◌, ◌∷◌, ◌==◌, if◌then◌else◌}
use qiran_firmware.Status.{Status, is_ok, is_busy, status_code, err_unsupported}
use qiran_firmware.Services.{Services, expired}
use qiran_firmware.Ccsds.{Buffer, get_u16, get_u32, put_u16, put_u32}
use qiran_firmware.Cmd
use qiran_firmware.Cmd.{
  State, Cmd, Handler, init, send_result, reject, complete, fail, keep_running, run_handler,
  dispatch, check_frame, process, resync, end_frame, take_byte, take_bytes, track, track_result,
  submit, note_event, parameter_fits, intact, packet_id, frame_bytes, result_packet, put_u8,
  Transmit,
}
use qiran_firmware.Cmd.Table.{command_count, legal_in}

-- A result that ends its command: any but the one that says it goes on.
abbrev pub is_final : Buffer → ℕ → Bool
is_final b n = (n == 18) && (b 0 == Cmd.result_id) && not (b 9 == Cmd.accepted)

-- The packet of a result is 18 bytes long, and final unless the command goes on.
result_packet-is_final :
    (id sequence ms result detail : ℕ) (array : Buffer)
    → result < 256
    → let (b, n) = result_packet id sequence ms result detail array in
      is_final b n ≡ not (result == Cmd.accepted)
unfolding result_packet put_u8 put_u16 put_u32
result_packet-is_final id sequence ms result detail array small = ground (arith, small)

-- The world keeps a count of the final results that the transmitter is given.
module _ {W : Type 0} (answers : W → ℕ) (transmit : Transmit W)
    (handler : ℕ → Option (Handler W)) where
  -- The transmitter counts a final result once and nothing else, and the handlers send none.
  pub record IsCounted : Type 0 where
    pub counts :
        (b : Buffer) (n : ℕ) (w : W)
        → answers (transmit b n w).1 ≡ answers w + (if is_final b n then 1 else 0)
    pub silent :
        (id : ℕ) (h : Handler W)
        → handler id ≡ some h
        → (parameter : ℕ) (w : W) (s : Services) → answers (h parameter w s).1 ≡ answers w

  module _ (counted : IsCounted) (before : ℕ) where
    -- `owed` commands are counted as received and have no outcome yet. Those with one have been
    -- answered since there were `before` answers, except `due` of them.
    pub record Owes (owed due : ℕ) (st : State W) : Type 0 where
      pub received_word : st.cmd.received < 2 ^ 32
      pub balanced :
          u32 (
            st.cmd.completed
            + st.cmd.rejected
            + st.cmd.failed
            + (if st.cmd.inflight.active then 1 else 0)
            + owed)
          ≡ st.cmd.received
      pub answered :
          u32 (answers st.world + due)
          ≡ u32 (before + st.cmd.completed + st.cmd.rejected + st.cmd.failed)
      pub attached : st.cmd.transmit ≡ some transmit
      pub registered : st.cmd.handler ≡ handler

    send_result_answers :
        (array : Buffer) (id sequence ms result detail : ℕ) (st : State W)
        → result < 256
        → st.cmd.transmit ≡ some transmit
        → answers (send_result array id sequence ms result detail st).world
          ≡ answers st.world + (if result == Cmd.accepted then 0 else 1)
    unfolding send_result
    send_result_answers array id sequence ms result detail st small attached =
        let (b, n) = result_packet id sequence ms result detail array in
        rw attached (
          counted.counts b n st.world
          ∙ ap (λ (f : Bool). answers st.world + (if f then 1 else 0))
              (result_packet-is_final id sequence ms result detail array small)
          ∙ ground arith)

    sends :
        (owed due due' : ℕ) (array : Buffer) (id sequence ms result detail : ℕ) (st : State W)
        → Owes owed due st
        → u32 (answers (send_result array id sequence ms result detail st).world + due')
          ≡ u32 (before + st.cmd.completed + st.cmd.rejected + st.cmd.failed)
        → Owes owed due' (send_result array id sequence ms result detail st)
    unfolding send_result
    sends owed due due' array id sequence ms result detail st v more = record {
      received_word = v.received_word;
      balanced = v.balanced;
      answered = more;
      attached = v.attached;
      registered = v.registered;
    }

    final_sent :
        (owed : ℕ) (array : Buffer) (id sequence ms result detail : ℕ) (st : State W)
        → result < 256
        → (result == Cmd.accepted) ≡ false
        → Owes owed 1 st
        → Owes owed 0 (send_result array id sequence ms result detail st)
    final_sent owed array id sequence ms result detail st small final v =
        let more = send_result_answers array id sequence ms result detail st small v.attached in
        sends owed 1 0 array id sequence ms result detail st v
          (ground (arith, v.answered, more, final))

    running_sent :
        (owed : ℕ) (array : Buffer) (id sequence ms detail : ℕ) (st : State W)
        → Owes owed 0 st
        → Owes owed 0 (send_result array id sequence ms Cmd.accepted detail st)
    running_sent owed array id sequence ms detail st v =
        let more =
          send_result_answers array id sequence ms Cmd.accepted detail st (omega arith)
            v.attached in
        sends owed 0 0 array id sequence ms Cmd.accepted detail st v
          (ground (arith, v.answered, more))

    reject_pays :
        (array : Buffer) (id sequence ms result detail : ℕ) (st : State W)
        → result < 256
        → (result == Cmd.accepted) ≡ false
        → Owes 1 0 st
        → Owes 0 0 (reject array id sequence ms result detail st)
    unfolding reject
    reject_pays array id sequence ms result detail st small final v =
        final_sent 0 array id sequence ms result detail _ small final (record {
          received_word = v.received_word;
          balanced = omega (arith, v.balanced);
          answered = omega (arith, v.answered);
          attached = v.attached;
          registered = v.registered;
        })

    complete_pays :
        (array : Buffer) (id sequence ms : ℕ) (st : State W)
        → Owes 1 0 st
        → Owes 0 0 (complete array id sequence ms st)
    unfolding complete
    complete_pays array id sequence ms st v =
        final_sent 0 array id sequence ms 0 0 _ (omega arith) refl (record {
          received_word = v.received_word;
          balanced = omega (arith, v.balanced);
          answered = omega (arith, v.answered);
          attached = v.attached;
          registered = v.registered;
        })

    fail_pays :
        (array : Buffer) (id sequence ms result detail : ℕ) (st : State W)
        → result < 256
        → (result == Cmd.accepted) ≡ false
        → Owes 1 0 st
        → Owes 0 0 (fail array id sequence ms result detail st)
    unfolding fail
    fail_pays array id sequence ms result detail st small final v =
        final_sent 0 array id sequence ms result detail _ small final (record {
          received_word = v.received_word;
          balanced = omega (arith, v.balanced);
          answered = omega (arith, v.answered);
          attached = v.attached;
          registered = v.registered;
        })

    keep_running_pays :
        (array : Buffer) (id parameter sequence ms : ℕ) (st : State W)
        → st.cmd.inflight.active ≡ false
        → Owes 1 0 st
        → Owes 0 0 (keep_running array id parameter sequence ms st)
    unfolding keep_running
    keep_running_pays array id parameter sequence ms st idle v =
        running_sent 0 array id sequence ms 0 _ (record {
          received_word = v.received_word;
          balanced = ground (arith, v.balanced, idle);
          answered = v.answered;
          attached = v.attached;
          registered = v.registered;
        })

    -- The state a call ends in owes nothing.
    abbrev Paid : State W → Type 0
    Paid st = Owes 0 0 st

    -- A handler that has run has answered nothing.
    handled :
        (owed : ℕ) (w : W) (s : Services) (st : State W)
        → answers w ≡ answers st.world
        → Owes owed 0 st
        → Owes owed 0 (record st { world = w; services = s })
    handled owed w s st same v = record {
      received_word = v.received_word;
      balanced = v.balanced;
      answered = omega (arith, v.answered, same);
      attached = v.attached;
      registered = v.registered;
    }

    registered_silent :
        (id : ℕ) (h : Handler W) (st : State W)
        → Owes 0 0 st ⊎ Owes 1 0 st
        → st.cmd.handler id ≡ some h
        → (parameter : ℕ) (w : W) (s : Services) → answers (h parameter w s).1 ≡ answers w
    registered_silent id h st v e =
        let same : st.cmd.handler ≡ handler = elim v [
          | inl o ↦ o.registered
          | inr o ↦ o.registered
        ] in
        counted.silent id h (ap (λ (f : ℕ → Option (Handler W)). f id) (sym same) ∙ e)

    run_handler_pays :
        (array : Buffer) (h : Handler W) (id parameter sequence ms : ℕ) (st : State W)
        → answers (h parameter st.world st.services).1 ≡ answers st.world
        → st.cmd.inflight.active ≡ false
        → Owes 1 0 st
        → Owes 0 0 (run_handler array h id parameter sequence ms st)
    unfolding run_handler
    run_handler_pays array h id parameter sequence ms st quiet idle v =
        let (r, w, s) = h parameter st.world st.services in
        let st' = record st { world = w; services = s } in
        let v' = handled 1 w s st quiet v in
        if_holds Paid (is_ok r) (λ _. complete_pays array id sequence ms st' v')
          (λ _.
            if_holds Paid (is_busy r)
              (λ _. keep_running_pays array id parameter sequence ms st' idle v')
              (λ _.
                fail_pays array id sequence ms Cmd.command_failed (status_code r) st' (omega arith)
                  refl v'))

    dispatch_pays :
        (array : Buffer) (id parameter sequence ms : ℕ) (st : State W)
        → st.cmd.inflight.active ≡ false
        → Owes 1 0 st
        → Owes 0 0 (dispatch array id parameter sequence ms st)
    unfolding dispatch
    dispatch_pays array id parameter sequence ms st idle v =
        option_holds Paid (st.cmd.handler id)
          (λ _.
            fail_pays array id sequence ms Cmd.command_failed (status_code err_unsupported) st
              (omega arith) refl v)
          (λ h e.
            run_handler_pays array h id parameter sequence ms st
              (registered_silent id h st (inr v) e parameter st.world st.services) idle v)

    check_frame_pays :
        (array : Buffer) (stage ms : ℕ) (frame : Buffer) (st : State W)
        → Owes 1 0 st
        → Owes 0 0 (check_frame array stage ms frame st)
    unfolding check_frame
    check_frame_pays array stage ms frame st v =
        let id = frame 2 in
        let parameter = get_u32 frame 3 in
        let sequence = get_u16 frame 7 in
        let refused : (result detail : ℕ)
            → result < 256
            → (result == Cmd.accepted) ≡ false
            → Owes 0 0 (reject array id sequence ms result detail st) =
          λ result detail small final.
            reject_pays array id sequence ms result detail st small final v in
        if_holds Paid (not (frame 1 == Cmd.version)) (λ _. refused _ _ (omega arith) refl)
          (λ _.
            if_holds Paid (leb command_count id) (λ _. refused _ _ (omega arith) refl)
              (λ _.
                if_holds Paid st.cmd.inflight.active (λ _. refused _ _ (omega arith) refl)
                  (λ idle.
                    if_holds Paid (not (legal_in id stage)) (λ _. refused _ _ (omega arith) refl)
                      (λ _.
                        if_holds Paid (not (parameter_fits id parameter))
                          (λ _. refused _ _ (omega arith) refl)
                          (λ _. dispatch_pays array id parameter sequence ms st idle v)))))

    pub process_pays :
        (array : Buffer) (stage : ℕ) (frame : Buffer) (st : State W)
        → Owes 0 0 st
        → Owes 0 0 (process array stage frame st)
    unfolding process
    process_pays array stage frame st v = check_frame_pays array stage _ frame _ (record {
      received_word = omega arith;
      balanced = omega (arith, v.balanced);
      answered = v.answered;
      attached = v.attached;
      registered = v.registered;
    })

    -- The assembly of frames is no part of it.
    pub reassembled :
        (asm : Buffer) (len resyncs : ℕ) (st : State W)
        → Owes 0 0 st
        → Owes 0 0
            (record st { cmd = record (st.cmd) { asm = asm; asm_len = len; resyncs = resyncs } })
    reassembled asm len resyncs st v = record {
      received_word = v.received_word;
      balanced = v.balanced;
      answered = v.answered;
      attached = v.attached;
      registered = v.registered;
    }

    resync-Owes : (st : State W) → Owes 0 0 st → Owes 0 0 (record st { cmd = resync st.cmd })
    unfolding resync
    resync-Owes st v =
        option_holds (λ (c : Cmd W). Owes 0 0 (record st { cmd = c }))
          (Cmd.find_start (st.cmd.asm_len - 1) 1 st.cmd.asm) (λ _. reassembled st.cmd.asm 0 _ st v)
          (λ i _. reassembled _ _ _ st v)

    end_frame-Owes :
        (array : Buffer) (stage : ℕ) (st : State W)
        → Owes 0 0 st
        → Owes 0 0 (end_frame array stage st)
    unfolding end_frame
    end_frame-Owes array stage st v =
        let st' = process array stage st.cmd.asm st in
        if_holds Paid (intact st.cmd.asm)
          (λ _.
            reassembled st'.cmd.asm 0 st'.cmd.resyncs st'
              (process_pays array stage st.cmd.asm st v))
          (λ _. resync-Owes st v)

    take_byte-Owes :
        (array : Buffer) (stage byte : ℕ) (st : State W)
        → Owes 0 0 st
        → Owes 0 0 (take_byte array stage byte st)
    unfolding take_byte
    take_byte-Owes array stage byte st v =
        let same =
          reassembled (update st.cmd.asm st.cmd.asm_len byte) (st.cmd.asm_len + 1) st.cmd.resyncs st
            v in
        if_holds Paid ((st.cmd.asm_len == 0) && not (byte == packet_id)) (λ _. v)
          (λ _.
            if_holds Paid (st.cmd.asm_len + 1 == frame_bytes)
              (λ _. end_frame-Owes array stage _ same) (λ _. same))

    pub take_bytes-Owes :
        (array : Buffer) (stage : ℕ) (bytes : List ℕ) (st : State W)
        → Owes 0 0 st
        → Owes 0 0 (take_bytes array stage bytes st)
    unfolding take_bytes
    take_bytes-Owes array stage [] st v = v
    take_bytes-Owes array stage (b ∷ bs) st v =
        take_bytes-Owes array stage bs (take_byte array stage b st)
          (take_byte-Owes array stage b st v)

    -- A command in flight that ends is owed its outcome until it is given.
    ended-Owes :
        (s : Services) (st : State W)
        → st.cmd.inflight.active ≡ true
        → Owes 0 0 st
        → Owes 1 0 (record st {
          cmd = record (st.cmd) { inflight = record (st.cmd.inflight) { active = false } };
          services = s;
        })
    ended-Owes s st e v = record {
      received_word = v.received_word;
      balanced = ground (arith, v.balanced, e);
      answered = v.answered;
      attached = v.attached;
      registered = v.registered;
    }

    track_result-Owes :
        (array : Buffer) (r : Status) (st : State W)
        → st.cmd.inflight.active ≡ true
        → Owes 0 0 st
        → Owes 0 0 (track_result array r st)
    unfolding track_result
    track_result-Owes array r st e v =
        let f = st.cmd.inflight in
        let (late, s) = expired f.budget st.services in
        let owed = ended-Owes st.services st e v in
        if_holds Paid (is_busy r)
          (λ _.
            if_holds Paid late
              (λ _.
                fail_pays array f.id f.sequence f.receipt_ms _ _ _ (omega arith) refl
                  (ended-Owes s st e v))
              (λ _. handled 0 st.world s st refl v))
          (λ _.
            if_holds Paid (is_ok r) (λ _. complete_pays array f.id f.sequence f.receipt_ms _ owed)
              (λ _. fail_pays array f.id f.sequence f.receipt_ms _ _ _ (omega arith) refl owed))

    pub track-Owes : (array : Buffer) (st : State W) → Owes 0 0 st → Owes 0 0 (track array st)
    unfolding track
    track-Owes array st v =
        let f = st.cmd.inflight in
        option_holds Paid (st.cmd.handler f.id) (λ _. v)
          (λ h e.
            let (r, w, s) = h f.parameter st.world st.services in
            if_holds Paid f.active
              (λ busy.
                track_result-Owes array r (record st { world = w; services = s }) busy
                  (handled 0 w s st
                    (registered_silent f.id h st (inl v) e f.parameter st.world st.services) v))
              (λ _. v))
