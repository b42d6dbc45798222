-- ===== src/Proxy/Network/Laws.antt =====
-- An answer that comes in over the network completes the call that waits for it.
use mathlib.Core.List.{map}
use zktls_bench.Prelude.{
  ℕ, ◌+◌, ◌^◌, ◌<◌, ◌≡◌, refl, ap, sym, subst, ◌∙◌, true, List, [], ◌++◌, ltb, length, take, arith,
  All, concat,
}
use zktls_bench.Prelude.Bytes.{from_le}
use zktls_bench.Errors.{Outcome, ok}
use zktls_bench.Ws.Channel.{Channel}
use zktls_bench.Ws.Recv.Chunks.{Absent}
use zktls_bench.Ws.Message.{recv_chunk}
use zktls_bench.Ws.Message.Chunks.{
  chunk_of, chunk_frame, IsOther, insert_all, with_list, recv_chunk-ChunkRead,
}
use zktls_bench.Proxy.SendProxy.{append_node}
use zktls_bench.Proxy.Calls.{Calls, allocate_call_result, put_call_id}
use zktls_bench.Proxy.Functions.Laws.{IsFresh, begun, with_answer, Answers, message-queued}
use zktls_bench.Proxy.Network.{Network, NetworkRound, goes_on, on_message, process_network}

module _ (ch : Channel) where
  open ch use {State, pending}

  -- The round has received the answer: the call is answered, its id is no longer queued, what came in
  -- before is kept, and what is behind is left.
  pub record Completed (outcome : Outcome (NetworkRound State)) (n : Network State) (c : Calls)
      (bytes : List ℕ) (others : List (List ℕ)) (tail : List ℕ) : Type 0 where
    pub s' : State
    pub result :
        outcome
        ≡ ok (
            goes_on
              (record n {
                network_recv_ctx =
                    with_list ch n.network_recv_ctx (insert_all n.network_recv_ctx.list others);
                channel_stream = s';
              })
              (record (with_answer bytes c) { call_ids = [] }))
    pub behind : pending s' ≡ tail

  -- A call is begun on a client whose thread `process_network`, in chunk mode, has no other call to
  -- serve and no answer to this one, and the answer, a whole one of less than 2^31 bytes, comes in
  -- behind answers to other calls of less than 2^62 bytes: a round of the thread, with fuel for
  -- each of them and two, completes the call with just this answer, keeps the others, and reads
  -- nothing behind. The pending calls have ids that were given out, and the id of this one is below
  -- 2^31.
  pub process_network-begun :
      (fuel expected : ℕ) (n : Network State) (c : Calls) (bytes : List ℕ) (others : List (List ℕ))
      (tail : List ℕ) (junk : ℕ)
      → IsFresh c
      → c.call_ids ≡ []
      → c.next_id < 2 ^ 31
      → Answers bytes expected c.next_id
      → n.network_recv_ctx.is_chunk ≡ true
      → Absent c.next_id n.network_recv_ctx.list
      → All (IsOther c.next_id) others
      → pending n.channel_stream ≡ concat (map chunk_frame others) ++ (chunk_frame bytes ++ tail)
      → length others + 1 < fuel
      → Completed (process_network ch fuel n (begun expected c) junk) n c bytes others tail
  unfolding process_network append_node put_call_id allocate_call_result
  process_network-begun fuel expected n c bytes others tail junk f q b a chunk absent o e enough =
      let same : (chunk_of bytes).id ≡ c.next_id =
        let positive : ltb (from_le (take 4 bytes)) 0x8000_0000 ≡ true =
          ground (arith, a.call_id) in
        rw positive a.call_id in
      let read =
        recv_chunk-ChunkRead ch fuel n.network_recv_ctx bytes others n.channel_stream tail chunk
          (subst (λ i. Absent i n.network_recv_ctx.list) (sym same) absent)
          (subst (λ i. All (IsOther i) others) (sym same) o) (omega (arith, a.whole_header))
          (omega (arith, a.an_int)) e enough in
      record {
        s' = read.s';
        result = rw q (
            ap
              (λ i.
                on_message ch n (record (begun expected c) { call_ids = [] }) c.next_id junk
                  (recv_chunk ch fuel n.network_recv_ctx i n.channel_stream))
              (sym same)
            ∙ rw (read.result, message-queued c expected [] bytes c.next_id junk f a) refl);
        behind = read.behind;
      }
