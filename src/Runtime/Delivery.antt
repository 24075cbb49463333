-- ===== src/Runtime/Delivery.antt =====
-- A view update on its way from the host's game to a client (kermp/runtime.py, both sides).
use ker_mp.Prelude.{
  String, [], length, none, refl, true, ℕ, ◌++◌, ◌+◌, ◌∷◌, ◌≡◌, ◌≤◌, arith, false, ltb, ap, ◌∙◌,
}
use ker_mp.Prelude.Int.{lt_ℤ, pos, ℤ, eq_ℤ}
use ker_mp.Prelude.Errors.{Result, ok}
use ker_mp.Value.{Payload, get_value, null, str, to_int}
use ker_mp.Protocol.{MessageType}
use ker_mp.SaveSync.{Bytes}
use ker_mp.Net.{World, broadcast, drop_all, log, payload_body, to_all, int_at}
use ker_mp.Net.Faults.{failing-nobody}
use ker_mp.Runtime.Reading.{max_game_message_bytes, item, raw_of}
use ker_mp.Runtime.Host.State.{HostRuntime, to_players}
use ker_mp.Runtime.Host.Builds.{game_view, open_epoch, view_fields, view_of, pass_view}
use ker_mp.Runtime.Client.Messages.{on_host_type}
use ker_mp.Runtime.Client.State.{ClientRuntime, sidecar_error, went}
use ker_mp.Runtime.Client.Views.{on_view, check_epoch, checked_view, view_at}
use ker_mp.Prelude.Dict.{get}

module _ (decode : String → Result Bytes) (encode : Bytes → String) where
  passed_view :
      (w : World) (r : HostRuntime) (id : ℤ) (raw : Bytes)
      → w.dead ≡ []
      → open_epoch r.host.session.travel ≡ none
      → (pass_view encode w (ok (id, raw)) r).1.host.sent
        ≡ r.host.sent
          ++ to_all
              (r.host.seq + 1)
              MessageType.game_raw_message
              (payload_body (view_fields encode id raw (r.game_sequence + 1) none))
            ∷ []
  unfolding pass_view to_players broadcast drop_all log
  passed_view w r id raw alive over = rw (over, alive, failing-nobody r.host.peers) refl

  view_told :
      (w : World) (payload : Payload) (r : HostRuntime) (id : ℤ) (raw : Bytes)
      → w.dead ≡ []
      → view_of decode payload ≡ ok (id, raw)
      → open_epoch r.host.session.travel ≡ none
      → (game_view decode encode w payload r).1.host.sent
        ≡ r.host.sent
          ++ to_all
              (r.host.seq + 1)
              MessageType.game_raw_message
              (payload_body (view_fields encode id raw (r.game_sequence + 1) none))
            ∷ []
  unfolding game_view
  view_told w payload r id raw alive good over =
      ap (λ x. (pass_view encode w x r).1.host.sent) good ∙ passed_view w r id raw alive over

  -- What `raw_of` says of an update that the host has made.
  raw_back :
      (id : ℤ) (raw : Bytes) (sequence : ℕ)
      → decode (encode raw) ≡ ok raw
      → length raw ≤ max_game_message_bytes
      → raw_of decode (view_fields encode id raw sequence none) ≡ ok raw
  unfolding raw_of item get view_fields str
  raw_back id raw sequence back small =
      let fits : ltb max_game_message_bytes (length raw) ≡ false = ground arith in
      rw (back, fits) refl

  number_in :
      (id : ℤ) (raw : Bytes) (sequence : ℕ)
      → int_at "sequence" (pos 0) (view_fields encode id raw sequence none) ≡ ok (pos sequence)
  unfolding int_at view_fields get to_int
  number_in id raw sequence = refl

  epoch_out :
      (id : ℤ) (raw : Bytes) (sequence : ℕ)
      → get_value "epoch" (view_fields encode id raw sequence none) ≡ null
  unfolding get_value view_fields get
  epoch_out id raw sequence = refl

  view_unshown :
      (id : ℤ) (raw : Bytes) (sequence : ℕ) (c : ClientRuntime)
      → decode (encode raw) ≡ ok raw
      → length raw ≤ max_game_message_bytes
      → lt_ℤ c.last_game_sequence (pos sequence) ≡ true
      → eq_ℤ c.travel_epoch (pos 0) ≡ false
      → on_view decode (view_fields encode id raw sequence none) c
        ≡ went (sidecar_error "missing_travel_epoch" c)
  unfolding on_view view_at checked_view check_epoch
  view_unshown id raw sequence c back small new travelled =
      let d = view_fields encode id raw sequence none in
      let number : int_at "sequence" (pos 0) d ≡ ok (pos sequence) = number_in id raw sequence in
      let bare : get_value "epoch" d ≡ null = epoch_out id raw sequence in
      rw (number, new, raw_back id raw sequence back small, bare, travelled) refl

module _ (decode : String → Result Bytes) (encode : Bytes → String) (sha256 : Bytes → String) where
  -- Once a travel is over, a client that was told of any travel shows no view update any more: the
  -- host's game makes one, the host sends it to all players without an epoch, and a client whose
  -- epoch is not 0 answers its game "missing_travel_epoch" instead of passing the update on. What
  -- base64 encodes it decodes, the update is no longer than allowed and its number is new to the client.
  pub view_lost_after_travel :
      (w : World) (payload : Payload) (r : HostRuntime) (id : ℤ) (raw : Bytes) (c : ClientRuntime)
      → w.dead ≡ []
      → view_of decode payload ≡ ok (id, raw)
      → open_epoch r.host.session.travel ≡ none
      → decode (encode raw) ≡ ok raw
      → length raw ≤ max_game_message_bytes
      → lt_ℤ c.last_game_sequence (pos (r.game_sequence + 1)) ≡ true
      → eq_ℤ c.travel_epoch (pos 0) ≡ false
      → let update = view_fields encode id raw (r.game_sequence + 1) none in
        ((game_view decode encode w payload r).1.host.sent
          ≡ r.host.sent
            ++ to_all (r.host.seq + 1) MessageType.game_raw_message (payload_body update) ∷ [])
        × (on_host_type decode sha256 MessageType.game_raw_message update c
            ≡ went (sidecar_error "missing_travel_epoch" c))
  unfolding on_host_type
  view_lost_after_travel w payload r id raw c alive good over back small new travelled = (
    view_told decode encode w payload r id raw alive good over,
    view_unshown decode encode id raw (r.game_sequence + 1) c back small new travelled,
  )
