-- ===== src/Tests/Chat.antt =====
-- Concrete runs of the chat with the assistant.
use homelabs_siem_soar.Prelude.{◌≡◌, refl, true, false, none, some, [], ◌∷◌, map, arith, trim}
use homelabs_siem_soar.Investigations.Chat.{
  Frame, Chat, opened, user, agent, ready_of, run, open_clicked, close_clicked, socket_opened,
  socket_closed, typed, form_submitted, frame_came,
}
use homelabs_siem_soar.Investigations.Chat.Replies.{reply_is_assembled}
use homelabs_siem_soar.Investigations.Chat.Reopening.{reopened_chat_is_dead}

abbrev asking : Chat
asking = record {
  is_open = true;
  is_minimized = false;
  input = "What is it?";
  messages = [];
  is_typing = false;
  ws_ref = some 4;
  fresh = 5;
  sockets = record { number = 4; ready = opened } ∷ [];
  sent = [];
}

abbrev first : Frame
first = record { error = none; chunk = "A "; provider = some "openai"; is_done = false }

abbrev last : Frame
last = record { error = none; chunk = "scan."; provider = none; is_done = true }

abbrev socket_is_open : ready_of 4 asking.sockets ≡ some opened
socket_is_open = unfold ready_of in refl

reply_is_assembled_example :
    ((run asking (form_submitted ∷ map (λ g. frame_came 4 g) (first ∷ last ∷ []))).messages
      ≡ record { role = user; text = "What is it?"; provider = none }
        ∷ record { role = agent; text = "A scan."; provider = some "openai" }
        ∷ [])
    × ((run asking (form_submitted ∷ map (λ g. frame_came 4 g) (first ∷ last ∷ []))).is_typing
        ≡ false)
    × ((run asking (form_submitted ∷ map (λ g. frame_came 4 g) (first ∷ last ∷ []))).sent
        ≡ "What is it?" ∷ [])
unfolding trim
reply_is_assembled_example =
    reply_is_assembled asking 4 first (last ∷ []) refl refl refl refl socket_is_open
      (refl, (refl, tt))

reopened_chat_is_dead_example :
    ((run asking (close_clicked ∷ open_clicked ∷ socket_opened 5 ∷ socket_closed 4 ∷ [])).is_open
      ≡ true)
    × (ready_of 5
          (run asking
            (close_clicked ∷ open_clicked ∷ socket_opened 5 ∷ socket_closed 4 ∷ [])).sockets
        ≡ some opened)
    × (run
          (run asking (close_clicked ∷ open_clicked ∷ socket_opened 5 ∷ socket_closed 4 ∷ []))
          (typed "Why?" ∷ form_submitted ∷ [])
        ≡ record (run asking
            (close_clicked ∷ open_clicked ∷ socket_opened 5 ∷ socket_closed 4 ∷ [])) {
              input = "Why?";
            })
reopened_chat_is_dead_example =
    reopened_chat_is_dead asking 4 "Why?" refl refl (omega arith) socket_is_open
