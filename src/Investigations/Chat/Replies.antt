-- ===== src/Investigations/Chat/Replies.antt =====
-- The answer of the assistant, which comes in chunks.
use Prim.Native.String.{String, ◌++◌ as append}
use homelabs_siem_soar.Prelude.{
  ℕ, ◌≡◌, ◌∙◌, refl, sym, ap, Bool, true, false, not, ◌&&◌, Option, none, some, List, [], ◌∷◌, ◌++◌,
  map, any, All, arith, is_empty, trim, if◌then◌else◌,
}
use mathlib.Core.List.{append_assoc}
use text.Mathlib.TextLemmas.{append_assoc as join_assoc, append-nil as join_nil}
use homelabs_siem_soar.Investigations.Chat.{
  user, agent, Message, Frame, opened, Chat, frame_came, form_submitted, ready_of, has_error,
  is_user, provider_or, new_reply, grown, add_chunk, handle_frame, receive, submitted,
  handle_submit, step, run,
}

abbrev question : String → Message
question input = record { role = user; text = input; provider = none }

-- The texts of the chunks, one after the other.
abbrev chunks : List Frame → String
chunks [] = ""
chunks (f ∷ fs) = append f.chunk (chunks fs)

-- The last provider that is named, or else a given one.
abbrev last_provider : Option String → List Frame → Option String
last_provider p [] = p
last_provider p (f ∷ fs) = last_provider (provider_or f.provider p) fs

abbrev answer : Frame → List Frame → Message
answer f fs = record {
  role = agent;
  text = append f.chunk (chunks fs);
  provider = last_provider f.provider fs;
}

abbrev HasNoError : Frame → Type 0
HasNoError f = has_error f.error ≡ false

add_chunk-append :
    (ms : List Message) (m : Message) (f : Frame)
    → add_chunk (ms ++ m ∷ []) f
      ≡ ms ++ (if is_user m.role then m ∷ new_reply f ∷ [] else grown m f ∷ [])
unfolding add_chunk
add_chunk-append [] m f = refl
add_chunk-append (x ∷ []) m f = refl
add_chunk-append (x ∷ y ∷ ms) m f = ap (λ (r : List Message). x ∷ r) (add_chunk-append (y ∷ ms) m f)

-- The chat while an answer grows at the end of its messages.
abbrev Grows : ℕ → List Message → Message → Bool → List String → Chat → Type 0
Grows k ms m typing sent s =
    (ready_of k s.sockets ≡ some opened)
    × (s.messages ≡ ms ++ m ∷ [])
    × (s.is_typing ≡ typing)
    × (s.sent ≡ sent)

frame-Grows :
    (k : ℕ) (ms : List Message) (m : Message) (typing : Bool) (sent : List String) (f : Frame)
    (s : Chat)
    → is_user m.role ≡ false
    → HasNoError f
    → Grows k ms m typing sent s
    → Grows k ms (grown m f) (typing && not f.is_done) sent (receive k f s)
unfolding receive handle_frame
frame-Grows k ms m typing sent f s u e (r, i, t, q) =
    rw (r, e)
      (
        r,
        rw i (
            add_chunk-append ms m f
            ∙ ap (λ (b : Bool). ms ++ (if b then m ∷ new_reply f ∷ [] else grown m f ∷ [])) u),
        ground (arith, t),
        q,
      )

extended : Message → List Frame → Message
extended m fs = record m {
  text = append m.text (chunks fs);
  provider = last_provider m.provider fs;
}

frames-Grows :
    (k : ℕ) (ms : List Message) (m : Message) (typing : Bool) (sent : List String) (fs : List Frame)
    (s : Chat)
    → is_user m.role ≡ false
    → All HasNoError fs
    → Grows k ms m typing sent s
    → Grows k ms
        (extended m fs)
        (typing && not (any (λ f. f.is_done) fs))
        sent
        (run s (map (λ f. frame_came k f) fs))
unfolding run step extended
frames-Grows k ms m typing sent [] s u h (r, i, t, q) = (
  r,
  i ∙ ap (λ (x : String). ms ++ record m { text = x } ∷ []) (sym (join_nil m.text)),
  ground (arith, t),
  q,
)
frames-Grows k ms m typing sent (f ∷ fs) s u (e, h) g =
    let (r, i, t, q) =
      frames-Grows k ms (grown m f) (typing && not f.is_done) sent fs (receive k f s) u h
        (frame-Grows k ms m typing sent f s u e g) in
    (r, rw (← join_assoc m.text f.chunk (chunks fs)) i, ground (arith, t), q)

first-Grows :
    (k : ℕ) (ms : List Message) (input : String) (sent : List String) (f : Frame) (s : Chat)
    → HasNoError f
    → Grows k ms (question input) true sent s
    → Grows k (ms ++ question input ∷ []) (new_reply f) (not f.is_done) sent (receive k f s)
unfolding receive handle_frame
first-Grows k ms input sent f s e (r, i, t, q) =
    rw (r, e)
      (
        r,
        rw i (
            add_chunk-append ms (question input) f
            ∙ sym (append_assoc ms (question input ∷ []) (new_reply f ∷ []))),
        ground (arith, t),
        q,
      )

-- A text that is not blank is submitted while the chat is shown and its socket is open, and frames
-- without an error come on that socket. Then the text has been sent and stands after the messages that
-- were there, one answer follows it, with the texts of the chunks put together and the last provider
-- that was named, and the assistant is typing unless a frame said that it is done.
pub reply_is_assembled :
    (s : Chat) (k : ℕ) (f : Frame) (fs : List Frame)
    → s.is_open ≡ true
    → s.is_minimized ≡ false
    → is_empty (trim s.input) ≡ false
    → s.ws_ref ≡ some k
    → ready_of k s.sockets ≡ some opened
    → All HasNoError (f ∷ fs)
    → let t = run s (form_submitted ∷ map (λ g. frame_came k g) (f ∷ fs)) in
      (t.messages ≡ (s.messages ++ question s.input ∷ []) ++ answer f fs ∷ [])
      × (t.is_typing ≡ not (any (λ g. g.is_done) (f ∷ fs)))
      × (t.sent ≡ s.input ∷ s.sent)
unfolding run step submitted handle_submit
reply_is_assembled s k f fs o m b w r (e, h) =
    let asked : Grows k s.messages (question s.input) true (s.input ∷ s.sent)
        (step form_submitted s) =
      rw (o, m, b, w, r) (r, refl, refl, refl) in
    let (r', i, t, q) =
      frames-Grows k (s.messages ++ question s.input ∷ []) (new_reply f) (not f.is_done)
        (s.input ∷ s.sent) fs (receive k f (step form_submitted s)) refl h
        (first-Grows k s.messages s.input (s.input ∷ s.sent) f (step form_submitted s) e asked) in
    (unfold extended in i, ground (arith, t), q)
