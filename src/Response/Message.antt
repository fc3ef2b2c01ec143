-- ===== src/Response/Message.antt =====
-- Each message is written as its format says, or refused.
use onion_relay.Prelude.{
  ℕ, ◌^◌, ◌<◌, ◌≡◌, ◌≢◌, Bool, true, false, refl, subst, Option, List, [], ◌∷◌, ◌++◌, length,
}
use onion_relay.Response.{
  safe_copy, write_uint32, write_int64, eose_start, ok_start, notice_start, closed_start,
  string_end, string_next, next_string, string_string, optional, bool_text, nostr_response_eose,
  nostr_response_ok, nostr_response_notice, nostr_response_closed,
}
use onion_relay.Response.Event.{
  FullEvent, serialize_tags, event_start, event_object, id_start, pubkey_start, created_at_start,
  kind_start, tags_start, content_start, sig_start, event_end, event_writers, nostr_response_event,
}
use onion_relay.Response.Cursor.{AllWrite, write_none, write_next, IsResponse, respond_lem}
use onion_relay.Response.Format.{
  eose_text, ok_text, notice_text, closed_text, event_text, truth_text, message_text,
}
use onion_relay.Response.Parts.{
  write_uint32_lem, write_int64_lem, serialize_tags_lem, copy_next, escape_next, optional_next,
}

module _ {capacity : ℕ} where
  last : (src : List ℕ) → AllWrite capacity (safe_copy capacity src ∷ []) (src ++ [])
  last src = copy_next src [] (write_none capacity)

  event_writers_lem :
      (subscription_id : List ℕ) (event : FullEvent)
      → event.entity.kind < 2 ^ 32
      → event.entity.created_at < 2 ^ 64
      → event.entity.created_at ≢ 2 ^ 63
      → AllWrite capacity
          (event_writers capacity subscription_id event)
          (event_text subscription_id event)
  unfolding event_writers
  event_writers_lem subscription_id event k t n =
      let e = event.entity in
      copy_next event_start _ (
        escape_next subscription_id _ (
          copy_next event_object _ (
            copy_next id_start _ (
              copy_next e.id _ (
                copy_next string_next _ (
                  copy_next pubkey_start _ (
                    copy_next e.pubkey _ (
                      copy_next string_next _ (
                        copy_next created_at_start _ (
                          write_next (write_int64 capacity e.created_at) _
                            (write_int64_lem capacity e.created_at t n)
                            (copy_next (b',' ∷ []) _ (
                              copy_next kind_start _ (
                                write_next (write_uint32 capacity e.kind) _
                                  (write_uint32_lem capacity e.kind k)
                                  (copy_next (b',' ∷ []) _ (
                                    copy_next tags_start _ (
                                      write_next (serialize_tags capacity e.tags e.tag_count) _
                                        (serialize_tags_lem capacity e.tags e.tag_count)
                                        (copy_next (b',' ∷ []) _ (
                                          copy_next content_start _ (
                                            escape_next event.content _ (
                                              copy_next string_next _ (
                                                copy_next sig_start _ (
                                                  copy_next event.sig _ (
                                                    copy_next (34 ∷ []) _
                                                      (last event_end))))))))))))))))))))))))

module _ (buffer : List ℕ) (capacity : ℕ) (size : length buffer ≡ capacity)
    (positive : 0 < capacity) where
  eose_lem :
      (subscription_id : List ℕ)
      → length (eose_text subscription_id) < 2 ^ 64
      → IsResponse capacity
          (eose_text subscription_id)
          (nostr_response_eose subscription_id buffer capacity)
  unfolding nostr_response_eose
  eose_lem subscription_id b =
      respond_lem _ buffer
        (copy_next eose_start _ (escape_next subscription_id _ (last string_end))) size positive b

  notice_lem :
      (message : List ℕ)
      → length (notice_text message) < 2 ^ 64
      → IsResponse capacity (notice_text message) (nostr_response_notice message buffer capacity)
  unfolding nostr_response_notice
  notice_lem message b =
      respond_lem _ buffer (copy_next notice_start _ (escape_next message _ (last string_end))) size
        positive b

  bool_text-truth_text : (success : Bool) → bool_text success ≡ truth_text success
  bool_text-truth_text true = refl
  bool_text-truth_text false = refl

  ok_lem :
      (event_id : List ℕ) (success : Bool) (message : Option (List ℕ))
      → length (ok_text event_id success message) < 2 ^ 64
      → IsResponse capacity
          (ok_text event_id success message)
          (nostr_response_ok event_id success message buffer capacity)
  unfolding nostr_response_ok
  ok_lem event_id success message b =
      respond_lem _ buffer
        (copy_next ok_start _ (
          escape_next event_id _ (
            copy_next string_next _ (
              subst
                (λ t.
                  AllWrite capacity
                    (safe_copy capacity (bool_text success)
                      ∷ safe_copy capacity next_string
                      ∷ optional capacity message (safe_copy capacity string_end ∷ []))
                    (t ++ (next_string ++ message_text message (string_end ++ []))))
                (bool_text-truth_text success)
                (copy_next (bool_text success) _
                  (copy_next next_string _ (optional_next message _ (last string_end))))))))
        size positive b

  closed_lem :
      (subscription_id : List ℕ) (message : Option (List ℕ))
      → length (closed_text subscription_id message) < 2 ^ 64
      → IsResponse capacity
          (closed_text subscription_id message)
          (nostr_response_closed subscription_id message buffer capacity)
  unfolding nostr_response_closed
  closed_lem subscription_id message b =
      respond_lem _ buffer
        (copy_next closed_start _ (
          escape_next subscription_id _
            (copy_next string_string _ (optional_next message _ (last string_end)))))
        size positive b

  -- In a buffer of its capacity, which is not 0, nostr_response_eose, nostr_response_notice,
  -- nostr_response_ok and nostr_response_closed write the texts of their messages with a zero behind it
  -- and return true if the text is shorter than the capacity, and otherwise return false and leave a
  -- zero at the end; they write nowhere else. The texts are shorter than 2 ^ 64 bytes.
  pub short_messages_lem :
      (id : List ℕ) (success : Bool) (text : List ℕ) (message : Option (List ℕ))
      → length (eose_text id) < 2 ^ 64
      → length (notice_text text) < 2 ^ 64
      → length (ok_text id success message) < 2 ^ 64
      → length (closed_text id message) < 2 ^ 64
      → IsResponse capacity (eose_text id) (nostr_response_eose id buffer capacity)
        × IsResponse capacity (notice_text text) (nostr_response_notice text buffer capacity)
        × IsResponse capacity
            (ok_text id success message)
            (nostr_response_ok id success message buffer capacity)
        × IsResponse capacity
            (closed_text id message)
            (nostr_response_closed id message buffer capacity)
  short_messages_lem id success text message b₁ b₂ b₃ b₄ =
      (eose_lem id b₁, notice_lem text b₂, ok_lem id success message b₃, closed_lem id message b₄)

  -- In a buffer of its capacity, which is not 0, nostr_response_event writes the text of the EVENT message
  -- with a zero behind it and returns true if the text is shorter than the capacity, and otherwise
  -- returns false and leaves a zero at the end; it writes nowhere else. The kind is a 32-bit number and
  -- the time a 64-bit pattern other than that of the least int64_t; the text is shorter than 2 ^ 64 bytes.
  pub nostr_response_event_lem :
      (subscription_id : List ℕ) (event : FullEvent)
      → event.entity.kind < 2 ^ 32
      → event.entity.created_at < 2 ^ 64
      → event.entity.created_at ≢ 2 ^ 63
      → length (event_text subscription_id event) < 2 ^ 64
      → IsResponse capacity
          (event_text subscription_id event)
          (nostr_response_event subscription_id event buffer capacity)
  unfolding nostr_response_event
  nostr_response_event_lem subscription_id event k t n b =
      respond_lem _ buffer (event_writers_lem subscription_id event k t n) size positive b
