-- ===== src/Tests/Mounts.antt =====
-- Runs of the FUSE file system.
use remote_adapter.Prelude.{ℕ, ◌≡◌, ◌⊎◌, ◌==◌, if◌then◌else◌, refl, true, false, none, some}
use remote_adapter.Prelude.Int.{pos, neg}
use remote_adapter.Executor.Fs.{eio}
use remote_adapter.Protocol.Types.{op_stat, blank_request, errno_response}
use remote_adapter.Adapter.Link.{Link}
use remote_adapter.Fuse.Client.{Client, call, Answered, call_again-answered}
use remote_adapter.Fuse.Nodes.{SetAttrIn}

-- A link whose streams all fail to deliver an answer.
abbrev dead_link : Link
dead_link = record {
  State = ℕ;
  dial = λ l. (true, l);
  write_kind = λ l. (true, l);
  shut = λ l. l;
  send = λ r l. (true, l);
  receive = λ o l. (none, l);
}

abbrev up : Client dead_link
up = record { connected = true; link = 0 }

call_drops : (call (blank_request op_stat) up).1.connected ≡ false
unfolding call remote_adapter.Fuse.Client.reset
call_drops = refl

abbrev truncation : SetAttrIn
truncation = record { mode = none; size = some 0; atime = none; mtime = some (pos 5) }

-- A link on which a stream that was dialed works, and an older one does not.
abbrev back_link : Link
back_link = record {
  State = ℕ;
  dial = λ l. (true, 1);
  write_kind = λ l. (true, l);
  shut = λ l. 0;
  send = λ r l. (true, l);
  receive = λ o l. (if l == 1 then some (errno_response (pos 0)) else none, l);
}

abbrev stale : Client back_link
stale = record { connected = true; link = 0 }

call_again-answered_example :
    Answered (blank_request op_stat) stale (call (blank_request op_stat) stale)
    ⊎ (((call (blank_request op_stat) stale).0 ≡ errno_response (neg eio))
        × ((call (blank_request op_stat) (call (blank_request op_stat) stale).1).0
            ≡ errno_response (pos 0)))
call_again-answered_example =
    call_again-answered (blank_request op_stat) (errno_response (pos 0)) stale (record {
      fresh = λ l. 1;
      sent = λ l. 1;
      done = λ l. 1;
      dials = λ l. refl;
      sends = λ l. refl;
      answers = λ l. refl;
    })

second_call_run :
    (call (blank_request op_stat) (call (blank_request op_stat) stale).1).0 ≡ errno_response (pos 0)
unfolding call remote_adapter.Fuse.Client.reset
second_call_run = refl
