-- ===== src/Log/Tests.antt =====
-- The properties of the log at concrete logs.
use qiran_firmware.Base.{[], arith, take, ◌≡◌, ◌∷◌}
use qiran_firmware.Log
use qiran_firmware.Log.{LogRecord, event, fault, log_depth}
use qiran_firmware.Log.Fifo.{IsValid, contents, push_all, push_all-contents}

abbrev first : LogRecord
first = record { tick = 7; detail = 1; code = 2; severity = 3; category = fault }

abbrev second : LogRecord
second = record { tick = 8; detail = 0; code = 5; severity = 0; category = event }

-- A log whose counters are about to wrap, with one record held.
abbrev about_to_wrap : Log.Log
about_to_wrap = record {
  buf = λ _. first;
  head = 4294967295;
  tail = 4294967294;
  dropped = 0;
  total = 9;
  fault_total = 4;
}

about_to_wrap-IsValid : IsValid about_to_wrap
about_to_wrap-IsValid = record { counted = ground arith }

push_all-contents_example :
    contents (push_all (first ∷ second ∷ []) (Log.init about_to_wrap))
    ≡ take log_depth (first ∷ second ∷ [])
push_all-contents_example = push_all-contents (first ∷ second ∷ []) about_to_wrap
