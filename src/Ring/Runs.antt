-- ===== src/Ring/Runs.antt =====
-- Whole runs of the ring's operations against the same runs of the bounded queue.
use steamlink_arduino.Prelude.{ℕ, ◌-◌, ◌<◌, ◌≡◌, refl, ap, ◌∙◌, Bool, List, [], ◌∷◌, Option, arith}
use steamlink_arduino.Ring
use steamlink_arduino.Ring.{Relement, RingBuff, enqueue, dequeue}
use steamlink_arduino.Ring.Fifo
use steamlink_arduino.Ring.Refine.{
  IsValid, contents, enqueue_refines, dequeue_refines, enqueue-IsValid, dequeue-IsValid,
  new-IsValid,
}

-- a call of an operation, and what it gives
pub data Operation : Type 0 where
  enqueues : List ℕ → ℕ → ℕ → Operation
  dequeues : Operation

pub data Result : Type 0 where
  stored : Bool → Result
  taken : Option Relement → Result

abbrev pub step : Operation → RingBuff → RingBuff × Result
step (enqueues val len addr) r = ((enqueue r val len addr).0, stored (enqueue r val len addr).1)
step dequeues r = ((dequeue r).0, taken (dequeue r).1)

abbrev pub step_fifo : ℕ → Operation → List Relement → List Relement × Result
step_fifo cap (enqueues val len addr) q =
    let next = Fifo.push cap q (record { addr = addr; len = len; pkt = val }) in
    (next.0, stored next.1)
step_fifo cap dequeues q = ((Fifo.pop q).0, taken (Fifo.pop q).1)

abbrev pub run : List Operation → RingBuff → RingBuff × List Result
run [] r = (r, [])
run (op ∷ ops) r =
    let (r', result) = step op r in let (r'', results) = run ops r' in (r'', result ∷ results)

abbrev pub run_fifo : ℕ → List Operation → List Relement → List Relement × List Result
run_fifo cap [] q = (q, [])
run_fifo cap (op ∷ ops) q =
    let (q', result) = step_fifo cap op q in
    let (q'', results) = run_fifo cap ops q' in (q'', result ∷ results)

pub ringsize-step : (op : Operation) (r : RingBuff) → (step op r).0.ringsize ≡ r.ringsize
unfolding enqueue dequeue
ringsize-step (enqueues val len addr) r = ground arith
ringsize-step dequeues r = ground arith

step-IsValid : (op : Operation) (r : RingBuff) → IsValid r → IsValid (step op r).0
step-IsValid (enqueues val len addr) r v = enqueue-IsValid r val len addr v
step-IsValid dequeues r v = dequeue-IsValid r v

step_refines :
    (op : Operation) (r : RingBuff)
    → IsValid r
    → (contents (step op r).0, (step op r).1) ≡ step_fifo (r.ringsize - 1) op (contents r)
step_refines (enqueues val len addr) r v =
    ap (λ (x : List Relement × Bool). (x.0, stored x.1)) (enqueue_refines r val len addr v)
step_refines dequeues r v =
    ap (λ (x : List Relement × Option Relement). (x.0, taken x.1)) (dequeue_refines r v)

-- Any run of operations on a valid ring gives, call by call, the results that it gives on the
-- bounded queue of one packet less than the ring has slots, and leaves the same packets.
pub run_refines :
    (ops : List Operation) (r : RingBuff)
    → IsValid r
    → ((contents (run ops r).0, (run ops r).1) ≡ run_fifo (r.ringsize - 1) ops (contents r))
      × IsValid (run ops r).0
run_refines [] r v = (refl, v)
run_refines (op ∷ ops) r v =
    let r' = (step op r).0 in
    let (later, w) = run_refines ops r' (step-IsValid op r v) in
    let same = ringsize-step op r in
    let s = step_refines op r v in
    (
      ap (λ (x : List Relement × List Result). (x.0, (step op r).1 ∷ x.1))
            (later ∙ ap (λ n. run_fifo (n - 1) ops (contents r')) same)
          ∙ ap
              (λ (x : List Relement × Result).
                let (q, results) = run_fifo (r.ringsize - 1) ops x.0 in (q, x.1 ∷ results))
              s,
      w,
    )

-- A ring made by the constructor gives in every run the results of an empty queue that holds one
-- packet less than the size it was made with.
pub run-new :
    (size : ℕ) (ops : List Operation)
    → 0 < size
    → (run ops (Ring.new size)).1 ≡ (run_fifo (size - 1) ops []).1
unfolding Ring.new
run-new size ops l =
    let (v, e) = new-IsValid size l in
    ap (λ (x : List Relement × List Result). x.1)
      ((run_refines ops (Ring.new size) v).0 ∙ ap (run_fifo (size - 1) ops) e)
