-- ===== src/Server/Untouched.antt =====
-- What a checksum report leaves alone: clients, names, and who is in which room.
use fujinet_intv_basketball.Base.{ℕ, ◌≡◌, refl, ◌∙◌, arith, Bytes, length, get_or}
use fujinet_intv_basketball.Crc.{Verdict, waiting, mismatch, agreed, report, word}
use fujinet_intv_basketball.Server.Types.{State}
use fujinet_intv_basketball.Server.Handlers.{log_crc, store_crc, settle}

-- Two states that differ in the rooms' checksum tables and in the log at most.
pub record SameBut (s t : State) : Type 0 where
  pub same_heap : t.heap ≡ s.heap
  pub same_handed : t.next_client ≡ s.next_client
  pub same_clients : t.clients ≡ s.clients
  pub same_names : t.by_name ≡ s.by_name
  pub same_lobby : t.lobby ≡ s.lobby

settle-SameBut : (r : ℕ) (v : Verdict) (s : State) → SameBut s (settle r v s)
unfolding settle
settle-SameBut r waiting s = ground arith
settle-SameBut r (mismatch t e) s = ground arith
settle-SameBut r (agreed t) s = ground arith

pub log_crc-SameBut : (r : ℕ) (p : Bytes) (s : State) → SameBut s (log_crc r p s)
unfolding log_crc store_crc
log_crc-SameBut r p s =
    let result =
      report (length (s.rooms r).members) (get_or p 0 0) (word 1 p) (word 3 p) (s.rooms r).crc in
    let b = settle-SameBut r result.1 (store_crc r result.0 s) in
    record {
      same_heap = b.same_heap;
      same_handed = b.same_handed;
      same_clients = b.same_clients;
      same_names = b.same_names;
      same_lobby = b.same_lobby;
    }

settle-members :
    (r q : ℕ) (v : Verdict) (s : State) → ((settle r v s).rooms q).members ≡ (s.rooms q).members
unfolding settle
settle-members r q waiting s = refl
settle-members r q (mismatch t e) s = refl
settle-members r q (agreed t) s = ground arith

pub log_crc-members :
    (r q : ℕ) (p : Bytes) (s : State) → ((log_crc r p s).rooms q).members ≡ (s.rooms q).members
unfolding log_crc store_crc
log_crc-members r q p s =
    let result =
      report (length (s.rooms r).members) (get_or p 0 0) (word 1 p) (word 3 p) (s.rooms r).crc in
    settle-members r q result.1 (store_crc r result.0 s) ∙ ground arith
