-- ===== src/Broadcast/Examples.antt =====
-- The broadcaster's theorem on one subscription over a connection.
use claudecode_lite_main.Prelude.{
  not, ℕ, ◌<◌, String, [], ◌∷◌, ◌++◌, none, some, Bool, true, false, ◌≡◌, refl, sym, arith,
}
use claudecode_lite_main.Prelude.Int.{ℤ}
use claudecode_lite_main.Journal.Stream.{JournalRecord}
use claudecode_lite_main.Connection.Json.{
  Text, Json, text, utf8, utf8_char, string_chunks, escaped, encode_frame,
}
use claudecode_lite_main.Connection.Queues.{
  ConnectionContext, new_connection, enqueue, initiate_close,
}
use claudecode_lite_main.Broadcast.State.{
  catching_up, active, replay, live, Envelope, no_task, reading, finished, Subscription, Wire,
  Broadcaster, new_broadcaster, find, envelope_of, remember_global_event,
}
use claudecode_lite_main.Broadcast.Publish.{
  matches_topic, refusal, register, publish_durable, activate_replay, replay_read, replay_step,
}
use claudecode_lite_main.Broadcast.Lookup.{sent_to}
use claudecode_lite_main.Broadcast.Facts.{rest_of, envelopes, replays, lives}
use claudecode_lite_main.Broadcast.Journey.{
  Journey, registered, published, activated, read, turned, delivered_in_order,
}
use claudecode_lite_main.Broadcast.Limits.{IsWithin}
use claudecode_lite_main.Broadcast.Admitted.{
  registers, publishes, activates, reads, turns, Calls, none_made, then_call, broadcaster-IsWithin,
}
use claudecode_lite_main.Broadcast.Window.{
  in_window, window_of, IsWindow, remembered, dedup_refined,
}
use claudecode_lite_main.Broadcast.OnConnection.{connection_wire}

abbrev int_text : ℤ → Text
int_text n = 55 ∷ []

abbrev float_text : ℕ → Text
float_text x = 49 ∷ []

abbrev dump : Envelope → Json
dump e = text (101 ∷ [])

abbrev wire : Wire ConnectionContext
wire = connection_wire int_text float_text dump

abbrev any_topic : String → String → Bool
any_topic event_type pattern = true

abbrev row : String → ℕ → JournalRecord
row event_id n = record {
  event_id = event_id;
  stream_id = "run:r1";
  seq = n;
  event = record {
    type = "run.started";
    event_id = some event_id;
    run_id = some "r1";
    session_id = none;
    parent_run_id = none;
    payload = "{}";
  };
  size = 100;
}

abbrev one_row : JournalRecord
one_row = row "e1" 1

abbrev two_row : JournalRecord
two_row = row "e2" 2

abbrev three_row : JournalRecord
three_row = row "e3" 3

program : Unit {0}
unfolding utf8 utf8_char string_chunks escaped encode_frame new_connection enqueue initiate_close
    new_broadcaster find remember_global_event matches_topic refusal register publish_durable
    activate_replay replay_read replay_step
program = tt

abbrev fresh : Broadcaster ConnectionContext
fresh = new_broadcaster (λ n. new_connection)

abbrev subscribed : Broadcaster ConnectionContext
subscribed = (register wire any_topic 7 ("*" ∷ []) "run:r1" "sub-1" 1 fresh).0

-- The second record arrives before the replay starts.
abbrev buffered : Broadcaster ConnectionContext
buffered =
    activate_replay wire any_topic "sub-1" 0 (publish_durable wire any_topic two_row subscribed)

abbrev waiting : Subscription
waiting = record {
  sub_id = "sub-1";
  context = 7;
  topics = "*" ∷ [];
  scope = "run:r1";
  stream_id = some "run:r1";
  phase = catching_up;
  high_watermark = 1;
  catchup = two_row ∷ [];
  catchup_bytes = 4;
  replay_task = reading 0;
  stop_event = false;
}

waiting-found : find "sub-1" buffered.subscriptions ≡ some waiting
unfolding program
waiting-found = refl

abbrev loaded : Broadcaster ConnectionContext
loaded = replay_read wire any_topic (some (one_row ∷ [])) waiting buffered

abbrev step : Broadcaster ConnectionContext → Broadcaster ConnectionContext
step b = replay_step wire any_topic "sub-1" b

abbrev ready : Broadcaster ConnectionContext
ready = step (step (step loaded))

abbrev done : Broadcaster ConnectionContext
done = publish_durable wire any_topic three_row ready

abbrev serving : Subscription
serving = record waiting { phase = active; catchup = []; catchup_bytes = 0; replay_task = finished }

serving-found : find "sub-1" done.subscriptions ≡ some serving
unfolding program
serving-found = refl

fresh_task :
    (s : Subscription)
    → find "sub-1" (publish_durable wire any_topic two_row subscribed).subscriptions ≡ some s
    → s.replay_task ≡ no_task
unfolding program
fresh_task s h =
    let same : record waiting { replay_task = no_task } ≡ s = grind (arith, h) in rw (sym same) refl

later :
    (s : Subscription)
    → find "sub-1" ready.subscriptions ≡ some s
    → s.phase ≡ active
    → s.high_watermark < 3
unfolding program
later s h a = let same : serving ≡ s = grind (arith, h) in rw (sym same) (omega arith)

catching :
    (s : Subscription)
    → find "sub-1" subscribed.subscriptions ≡ some s
    → s.phase ≡ active
    → s.high_watermark < 2
unfolding program
catching s h a =
    let same : record waiting { catchup = []; catchup_bytes = 0; replay_task = no_task } ≡ s =
      grind (arith, h) in
    rw (sym same) (omega arith)

done-Journey : Journey wire any_topic "sub-1" (one_row ∷ []) (two_row ∷ three_row ∷ []) done
unfolding program
done-Journey =
    published
      (turned
        (turned
          (turned
            (read
              (activated
                (published (registered fresh 7 ("*" ∷ []) "run:r1" 1 refl refl refl refl) two_row
                  catching)
                0 fresh_task)
              waiting 0 (one_row ∷ []) waiting-found refl)
            "sub-1")
          "sub-1")
        "sub-1")
      three_row later

delivered_in_order_example :
    (sent_to "sub-1" done.sent
        ++ (replays any_topic serving (rest_of serving.replay_task)
            ++ envelopes "sub-1" live serving.catchup)
      ≡ replays any_topic serving (one_row ∷ [])
        ++ lives any_topic serving (two_row ∷ three_row ∷ []))
    × (serving.phase ≡ active
        → sent_to "sub-1" done.sent
          ≡ replays any_topic serving (one_row ∷ [])
            ++ lives any_topic serving (two_row ∷ three_row ∷ []))
delivered_in_order_example =
    delivered_in_order wire any_topic "sub-1" (one_row ∷ []) (two_row ∷ three_row ∷ []) serving done
      done-Journey serving-found

-- The three records were sent, the first by the replay.
three_sent :
    sent_to "sub-1" done.sent
    ≡ envelope_of "sub-1" replay one_row
      ∷ envelope_of "sub-1" live two_row
      ∷ envelope_of "sub-1" live three_row
      ∷ []
unfolding program
three_sent = refl

done-Calls : Calls wire any_topic fresh done
unfolding program
done-Calls =
    then_call
      (then_call
        (then_call
          (then_call
            (then_call
              (then_call
                (then_call (then_call none_made (registers 7 ("*" ∷ []) "run:r1" "sub-1" 1))
                  (publishes two_row))
                (activates "sub-1" 0))
              (reads (some (one_row ∷ [])) waiting waiting-found))
            (turns "sub-1"))
          (turns "sub-1"))
        (turns "sub-1"))
      (publishes three_row)

broadcaster-IsWithin_example : IsWithin wire.frame_size done.subscriptions
broadcaster-IsWithin_example =
    broadcaster-IsWithin wire any_topic (λ n. new_connection) done done-Calls

dedup_refined_example :
    IsWindow (window_of ("e1" ∷ "e2" ∷ "e1" ∷ []) []) (remembered ("e1" ∷ "e2" ∷ "e1" ∷ []) fresh)
    × ((remember_global_event "e2" (remembered ("e1" ∷ "e2" ∷ "e1" ∷ []) fresh)).1
        ≡ not (in_window "e2" (window_of ("e1" ∷ "e2" ∷ "e1" ∷ []) [])))
dedup_refined_example = dedup_refined (λ n. new_connection) ("e1" ∷ "e2" ∷ "e1" ∷ []) "e2"
