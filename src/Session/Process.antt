-- ===== src/Session/Process.antt =====
-- src/session/session_connection.c: what `process_session_node` keeps and sends.
use dmmr_orbit.Base.{
  take-length-append, take-append, ℕ, zero, suc, ◌+◌, ◌-◌, ◌%◌, ◌^◌, ◌≤◌, ◌<◌, leb, ltb, Bool-cases,
  true, Option, some, List, [], ◌∷◌, ◌++◌, length, length-append, length-drop, take, drop, set, ◌≡◌,
  refl, sym, ap, ◌∙◌, ◌⊎◌, inl, inr, arith, ret,
}
use dmmr_orbit.Base.Int.{pos, eqb_ℤ}
use dmmr_orbit.Base.Sort.{All, IsSortedBy, with_key}
use dmmr_orbit.Node.{Node, value_output_buffer_size}
use dmmr_orbit.Node.Cmp.{node_cmp}
use dmmr_orbit.Protocol.{Heap, Endpoint, get_session_pointer, update_session_counter}
use dmmr_orbit.Session.{
  SessionConnectionPool, burst, send_burst, call_snd_cb, shift_down, sort_pool_by_arrival_inline,
  own_node, get_session_size, process_session_node,
}
use dmmr_orbit.Session.Sort.{arrival_of, sort_pool-stable}
use dmmr_orbit.Session.Size.{total_size, Fits, get_session_size_iff}

burst-le : (ns : List Node) (siz count : ℕ) → burst siz count ns ≤ count + length ns
unfolding burst
burst-le [] siz count = omega arith
burst-le (n ∷ ns) siz count =
    ground (arith, burst-le ns ((siz + n.value_size) % 2 ^ 32) (count + 1))

drop-append : (k : ℕ) (xs ys : List Node) → k ≤ length xs → drop k (xs ++ ys) ≡ drop k xs ++ ys
drop-append zero [] [] h = refl
drop-append zero [] (y ∷ ys) h = refl
drop-append (suc k) [] ys h = ground arith
drop-append zero (x ∷ xs) ys h = refl
drop-append (suc k) (x ∷ xs) ys h = drop-append k xs ys (omega arith)

shift_down-append :
    (k : ℕ) (xs ys : List Node)
    → k ≤ length xs
    → shift_down (xs ++ ys) k (length xs) ≡ drop k xs ++ drop (length xs - k) (xs ++ ys)
shift_down-append k xs ys h =
    ap (λ q. q ++ drop (length xs - k) (xs ++ ys))
      (ap (take (length xs - k)) (drop-append k xs ys h)
        ∙ (ap (λ n. take n (drop k xs ++ ys)) (sym (length-drop k xs))
            ∙ take-length-append (drop k xs) ys))

-- A burst, where `xs` are the nodes in use and the linked endpoint is `u`: it sends the first nodes
-- of the pool, in order, and keeps every other node once, in the order of their arrival; nodes of
-- one arrival time stay in the order they were in.
pub send_burst_lem :
    (h : Heap) (conn : SessionConnectionPool) (xs ys : List Node) (u : Option ℕ)
    (session : Endpoint)
    → conn.pool_count ≡ length xs
    → get_session_pointer (some conn.session) ≡ ret u
    → update_session_counter h conn.session ≡ ret session
    → (left : List Node) × (rest : List Node) × (send_burst h true conn (xs ++ ys)
        ≡ ret (
          record conn {
            pool_count = length xs - burst 0 0 xs;
            session = session;
            pool = some (left ++ rest);
          },
          record { target = u; nodes = take (burst 0 0 xs) xs } ∷ [],
        ))
      × IsSortedBy arrival_of left
      × ((t : ℕ) → with_key arrival_of t left ≡ with_key arrival_of t (drop (burst 0 0 xs) xs))
unfolding send_burst call_snd_cb
send_burst_lem h conn xs ys u session count linked counted =
    let k = burst 0 0 xs in
    let within : burst 0 0 xs ≤ length xs = omega (arith, burst-le xs 0 0) in
    let fits : leb (burst 0 0 xs) (length xs) ≡ true = ground arith in
    let (left, e, sorted, same) =
      sort_pool-stable (drop (burst 0 0 xs) xs) (drop (length xs - burst 0 0 xs) (xs ++ ys)) in
    (
      left,
      drop (length xs - burst 0 0 xs) (xs ++ ys),
      rw
          (
            send_burst,
            count,
            take-length-append xs ys,
            take-append (burst 0 0 xs) xs ys within,
            call_snd_cb,
            linked,
            fits,
            counted,
            shift_down-append (burst 0 0 xs) xs ys within,
          )
          (ap
            (λ v. ret (
              record conn {
                pool_count = length xs - burst 0 0 xs;
                session = session;
                pool = some v;
              },
              record { target = u; nodes = take (burst 0 0 xs) xs } ∷ [],
            ))
            (ap (sort_pool_by_arrival_inline _) (sym (length-drop (burst 0 0 xs) xs)) ∙ e)),
      sorted,
      same,
    )

set-append :
    (xs : List Node) (n y : Node) (ys : List Node)
    → set (xs ++ (y ∷ ys)) (length xs) n ≡ (xs ++ (n ∷ [])) ++ ys
set-append [] n y ys = refl
set-append (x ∷ xs) n y ys = ap (λ q. x ∷ q) (set-append xs n y ys)

-- The session once a node stands behind the nodes in use.
abbrev pub with_nodes : SessionConnectionPool → List Node → Node → List Node → SessionConnectionPool
with_nodes conn xs here ys = record conn {
  pool = some ((xs ++ (here ∷ [])) ++ ys);
  pool_count = length (xs ++ (here ∷ []));
}

-- Where the cursor's node is of the session's own endpoint and the array has room behind the nodes
-- `xs` in use, the node is put behind them, and with every payload within its buffer the outcome
-- depends on the sum of the sizes alone: below the threshold nothing is sent and the nodes are the
-- old ones and the new one; from the threshold on, a burst of them is sent.
pub process_session_node_lem :
    (h : Heap) (here : Node) (conn : SessionConnectionPool) (xs : List Node) (y : Node)
    (ys : List Node)
    → node_cmp (some here) (own_node h conn.session) ≡ pos 0
    → conn.pool ≡ some (xs ++ (y ∷ ys))
    → conn.pool_count ≡ length xs
    → 0 < conn.pool_size
    → length xs + 1 < 2 ^ 32
    → All Fits (xs ++ (here ∷ []))
    → ((total_size (xs ++ (here ∷ [])) < value_output_buffer_size)
        × (process_session_node h true here conn ≡ ret (with_nodes conn xs here ys, [])))
      ⊎ ((value_output_buffer_size ≤ total_size (xs ++ (here ∷ [])))
          × (process_session_node h true here conn
              ≡ send_burst h true (with_nodes conn xs here ys) ((xs ++ (here ∷ [])) ++ ys)))
unfolding process_session_node
process_session_node_lem h here conn xs y ys own pool count room bound fit =
    let hit : eqb_ℤ (node_cmp (some here) (own_node h conn.session)) (pos 0) ≡ true = rw own refl in
    let inside : ltb (length xs) (length (xs ++ (y ∷ ys))) ≡ true =
      ground (arith, length-append xs (y ∷ ys)) in
    let more : (length xs + 1) % 2 ^ 32 ≡ length (xs ++ (here ∷ [])) =
      omega (arith, length-append xs (here ∷ [])) in
    let sized : ltb 0 conn.pool_size ≡ true = ground arith in
    let reaches = get_session_size_iff (xs ++ (here ∷ [])) fit in
    elim (Bool-cases (
      leb value_output_buffer_size
        (get_session_size value_output_buffer_size (xs ++ (here ∷ []))))) [
          | inl over ↦ inr (
            reaches.0 over,
            rw
                (
                  process_session_node,
                  hit,
                  pool,
                  count,
                  inside,
                  set-append xs here y ys,
                  more,
                  take-length-append (xs ++ (here ∷ [])) ys,
                  over,
                  sized,
                )
                refl,
          )
          | inr under ↦ inl (
            ground (arith, reaches, under),
            rw
                (
                  process_session_node,
                  hit,
                  pool,
                  count,
                  inside,
                  set-append xs here y ys,
                  more,
                  take-length-append (xs ++ (here ∷ [])) ys,
                  under,
                )
                refl,
          )
        ]
