-- ===== src/Websocket/Channel/Refines.antt =====
-- The rounds of the event loop (inc/websocket_session_base.hpp) are acts of the channel.
use boost_web.Common.{
  ◌≡◌, refl, sym, ap, subst, tail, ◌∙◌, List, [], ◌∷◌, ◌++◌, append-nil, append_assoc,
}
use boost_web.Websocket.Session.{BufferNode}
use boost_web.Websocket.Service.{Service}
use boost_web.Websocket.Connection.{Connection}
use boost_web.Websocket.Events.{Step, Reachable, next}
use boost_web.Websocket.SendQueue.Handlers.{Reachable-SendInv}
use boost_web.Websocket.Channel.{Channel, Acts, stay, take_in, give_on, empty, channel}
use boost_web.Websocket.Channel.Growth.{Grows, Step-Grows}

append_cancel : {A : Type 0} (xs ys zs : List A) → xs ++ ys ≡ xs ++ zs → ys ≡ zs
append_cancel [] ys zs e = e
append_cancel (x ∷ xs) ys zs e = append_cancel xs ys zs (ap tail e)

abbrev of : List BufferNode → List BufferNode → Channel
of pending given = record { pending = pending; given = given }

-- Messages are taken in first, and what is done then is done after.
take_all_in :
    (extra pending given taken : List BufferNode) (c : Channel)
    → Acts (of (pending ++ extra) given) taken c
    → Acts (of pending given) (extra ++ taken) c
take_all_in [] pending given taken c after =
    subst (λ ns. Acts (of ns given) taken c) (append-nil pending) after
take_all_in (node ∷ extra) pending given taken c after = take_in node (
    take_all_in extra (pending ++ node ∷ []) given taken c (
      subst (λ ns. Acts (of ns given) taken c) (sym (append_assoc pending (node ∷ []) extra))
        after))

give_all_on :
    (moved pending given : List BufferNode)
    → Acts (of (moved ++ pending) given) [] (of pending (given ++ moved))
give_all_on [] pending given =
    subst (λ ns. Acts (of pending given) [] (of pending ns)) (sym (append-nil given)) stay
give_all_on (node ∷ moved) pending given = give_on node (moved ++ pending) refl (
    subst (λ ns. Acts (of (moved ++ pending) (given ++ node ∷ [])) [] (of pending ns))
      (append_assoc given (node ∷ []) moved) (give_all_on moved pending (given ++ node ∷ [])))

-- Some messages are taken in, and then some of the oldest ones are given on.
take_and_give :
    (extra moved pending pending' given : List BufferNode)
    → pending ++ extra ≡ moved ++ pending'
    → Acts (of pending given) extra (of pending' (given ++ moved))
take_and_give extra moved pending pending' given balance =
    subst (λ taken. Acts (of pending given) taken (of pending' (given ++ moved))) (append-nil extra)
      (take_all_in extra pending given [] (of pending' (given ++ moved)) (
        subst (λ ns. Acts (of ns given) [] (of pending' (given ++ moved))) (sym balance)
          (give_all_on moved pending' given)))

-- Growth and the order of the messages are all that it takes.
grown-Acts :
    {W : Type 0} (k k' : Connection W) (g : Grows k k')
    → k.filled ≡ k.written ++ (channel k).pending
    → k'.filled ≡ k'.written ++ (channel k').pending
    → Acts (channel k) g.extra (channel k')
grown-Acts k k' g before after =
    subst (λ ns. Acts (channel k) g.extra (of (channel k').pending ns)) (sym g.written)
      (take_and_give g.extra g.moved (channel k).pending (channel k').pending k.written balance)
  where
    balance : (channel k).pending ++ g.extra ≡ g.moved ++ (channel k').pending
    balance =
        append_cancel k.written ((channel k).pending ++ g.extra) (g.moved ++ (channel k').pending) (
          sym (append_assoc k.written (channel k).pending g.extra)
          ∙ ap (λ ns. ns ++ g.extra) (sym before)
          ∙ sym g.filled
          ∙ after
          ∙ ap (λ ns. ns ++ (channel k').pending) g.written
          ∙ append_assoc k.written g.moved (channel k').pending)

module _ {W : Type 0} (sv : Service W) where
  -- A connection, whatever its service does, is a channel that takes messages in and gives them on
  -- in order: the empty channel gets to the state of each reachable connection by taking in the
  -- messages that were given to send_buffer_fill, in their order, and each round of the event loop
  -- is acts of the channel in which it takes in those that are given to send_buffer_fill meanwhile.
  pub refines-Channel :
      (k : Connection W)
      → Reachable sv k
      → Acts empty k.filled (channel k)
        × ((k' : Connection W)
            → Step sv k k'
            → (taken : List BufferNode) × (k'.filled ≡ k.filled ++ taken)
              × Acts (channel k) taken (channel k'))
  refines-Channel k r =
      let before = (Reachable-SendInv sv k r).ordered in
      (
        take_and_give k.filled k.written [] (channel k).pending [] before,
        λ k' st.
            let g = Step-Grows sv k k' st in
            (
              g.extra,
              g.filled,
              grown-Acts k k' g before (Reachable-SendInv sv k' (next r st)).ordered,
            ),
      )
