-- ===== src/Queues/Registering.antt =====
-- `handle_register` of lab6/GeislerWojciech/cw06/zad1/server.c: what it gives a client, and where its
-- table ends.
use agh_operating_systems.Base.{
  ℕ, ◌+◌, ◌≤◌, ◌<◌, ◌≡◌, refl, Bool, true, none, some, [], ◌∷◌, length, length-set, set, arith,
}
use agh_operating_systems.Base.Arrays.{get_or-set_self, get_or-set_ne}
use agh_operating_systems.Base.Int.{ℤ, pos, negsuc}
use agh_operating_systems.Base.Text.{CString}
use agh_operating_systems.Queues.{
  Message, int_content, max_clients, Server, get_queue, send_to, handle_register,
}

module _ (takes : ℤ → Bool) (date : CString) where
  -- Where the table of queues has room, a process with a queue that takes messages is registered under
  -- the next number, which it is told through that queue; the queues of the clients before it stay.
  pub handle_register_lem :
      (server : Server) (msg : Message) (qid : ℤ)
      → length server.client_queues ≡ max_clients
      → server.client_idx < max_clients
      → msg.sender_id ≡ negsuc 0
      → takes qid ≡ true
      → (server' : Server) × (handle_register takes date server msg qid
          ≡ some (
            server',
            (record {
              queue = qid;
              mtype = msg.sender_pid;
              content = int_content (pos server.client_idx);
            })
                ∷ [],
          ))
        × (get_queue server' (pos server.client_idx) ≡ some qid)
        × ((id : ℕ)
            → id < server.client_idx
            → get_queue server' (pos id) ≡ get_queue server (pos id))
        × (server'.client_idx ≡ server.client_idx + 1)
        × (length server'.client_queues ≡ max_clients)
  unfolding handle_register send_to get_queue
  handle_register_lem server msg qid full room anonymous open_queue =
      let server' : Server = record {
        client_queues = set server.client_queues server.client_idx qid;
        client_idx = server.client_idx + 1;
      } in
      (
        server',
        ground (arith, get_or-set_self server.client_queues server.client_idx qid (pos 0)),
        ground (arith, get_or-set_self server.client_queues server.client_idx qid (pos 0)),
        (λ id lt. ground (
          arith,
          get_or-set_ne server.client_queues server.client_idx id qid (pos 0)
              (λ e. absurd (omega arith)),
        )),
        refl,
        omega (arith, full, length-set server.client_queues server.client_idx qid),
      )

  -- Nothing checks the end of the table: the 129th registration writes behind it.
  pub handle_register_full :
      (server : Server) (msg : Message) (qid : ℤ)
      → max_clients ≤ server.client_idx
      → handle_register takes date server msg qid ≡ none
  unfolding handle_register
  handle_register_full server msg qid h = ground arith
