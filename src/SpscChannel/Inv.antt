-- ===== src/SpscChannel/Inv.antt =====
-- The invariant of the channel, and that every step keeps it while the counters do not wrap.
use lmcore.Prelude.{
  ℕ, suc, ◌+◌, ◌-◌, ◌%◌, ◌^◌, ◌≤◌, ◌<◌, ◌≡◌, refl, sym, ap, ap₂, subst, ◌∙◌, arith, true,
  if◌then◌else◌, ◌==◌, List, [], ◌∷◌, ◌++◌, Option, none, some, map, u64, get_or, set, length,
  length-set, length-replicate, get_or-set_self, get_or-set_ne, append_assoc,
}
use lmcore.Window.{window, slot_ne, window-set_outside, window-snoc}
use lmcore.SpscChannel.{PushMode, PopMode, Producer, Consumer, Reply, Spsc, new, take_slot}
use native.Mathlib.Nat.{add-mod_right, mod-lt}

module _ {A : Type 0} where
  -- What the producer knows where it is.
  abbrev pub ProducerKnows : ℕ → List (Option A) → ℕ → ℕ → Producer A → Type 0
  ProducerKnows width buf head tail (Producer.load_head m v t) = t ≡ tail
  ProducerKnows width buf head tail (Producer.write m v t) = (t ≡ tail) × (tail < head + width)
  ProducerKnows width buf head tail (Producer.store_tail m v t) =
      (t ≡ tail) × (tail < head + width) × (get_or buf (t % width) none ≡ some v)
  ProducerKnows width buf head tail _ = Unit

  abbrev pub ConsumerKnows : ℕ → ℕ → Consumer A → Type 0
  ConsumerKnows head tail (Consumer.load_tail m h) = h ≡ head
  ConsumerKnows head tail (Consumer.take m h) = (h ≡ head) × (head < tail)
  ConsumerKnows head tail (Consumer.store_head m h x) = (h ≡ head) × (head < tail)
  ConsumerKnows head tail _ = Unit

  -- The value that the consumer has taken and not yet counted.
  abbrev pub in_hand : Consumer A → List A
  in_hand (Consumer.store_head m h x) = x ∷ []
  in_hand _ = []

  -- The first position whose slot holds a value.
  abbrev pub first : Spsc A → ℕ
  first s = s.head + length (in_hand s.consumer)

  abbrev pub stored : Spsc A → List (Option A)
  stored s = window none s.capacity s.buffer (first s) (s.tail - first s)

  -- `values`: those in the buffer, in the order in which they were sent.
  pub record IsValid (s : Spsc A) : Type 0 where
    pub positive : 0 < s.capacity
    pub storage : length s.buffer ≡ s.capacity
    pub order : first s ≤ s.tail
    pub room : s.tail ≤ s.head + s.capacity
    pub producer_knows : ProducerKnows s.capacity s.buffer s.head s.tail s.producer
    pub consumer_knows : ConsumerKnows s.head s.tail s.consumer
    pub values : List A
    pub contents : stored s ≡ map some values
    pub logged : s.sent ≡ s.received ++ (in_hand s.consumer ++ values)

  map-snoc : (xs : List A) (x : A) → map some xs ++ (some x ∷ []) ≡ map some (xs ++ (x ∷ []))
  map-snoc [] x = refl
  map-snoc (y ∷ ys) x = ap (◌∷◌ (some y)) (map-snoc ys x)

  pub new-IsValid : (n : ℕ) → IsValid (new {A = A} n)
  unfolding new
  new-IsValid n = record {
    positive = ground arith;
    storage = length-replicate (if n == 0 then 1 else n) none;
    order = omega arith;
    room = ground arith;
    producer_knows = tt;
    consumer_knows = tt;
    values = [];
    contents = refl;
    logged = refl;
  }

  -- The slot is written at the tail, which no stored value lies in.
  pub write-IsValid :
      (s : Spsc A) (m : PushMode) (v : A) (t : ℕ)
      → s.producer ≡ Producer.write m v t
      → IsValid s
      → IsValid (record s {
        buffer = set s.buffer (t % s.capacity) (some v);
        producer = Producer.store_tail m v t;
      })
  write-IsValid s m v t e h =
      let (at, free) = subst (ProducerKnows s.capacity s.buffer s.head s.tail) e h.producer_knows in
      record {
        positive = h.positive;
        storage = length-set s.buffer (t % s.capacity) (some v) ∙ h.storage;
        order = h.order;
        room = h.room;
        producer_knows = (
          at,
          free,
          get_or-set_self s.buffer (t % s.capacity) (some v) none
              (subst (λ k. t % s.capacity < k) (sym h.storage) (mod-lt t h.positive)),
        );
        consumer_knows = h.consumer_knows;
        values = h.values;
        contents =
            window-set_outside none s.capacity s.buffer (some v) (first s) (s.tail - first s) t
              (omega (arith, h.order)) (omega arith)
            ∙ h.contents;
        logged = h.logged;
      }

  -- A loaded tail stays the tail, as the producer alone changes it; moving the head makes room only.
  ProducerKnows-head :
      (width : ℕ) (buf : List (Option A)) (head head' tail : ℕ) (p : Producer A)
      → head ≤ head'
      → ProducerKnows width buf head tail p
      → ProducerKnows width buf head' tail p
  ProducerKnows-head width buf head head' tail Producer.outside l k = tt
  ProducerKnows-head width buf head head' tail (Producer.check v) l k = tt
  ProducerKnows-head width buf head head' tail (Producer.load_tail m v) l k = tt
  ProducerKnows-head width buf head head' tail (Producer.load_head m v t) l k = k
  ProducerKnows-head width buf head head' tail (Producer.write m v t) l k = (k.0, omega arith)
  ProducerKnows-head width buf head head' tail (Producer.store_tail m v t) l k =
      (k.0, omega arith, k.2)

  -- The consumer empties a slot other than the one that the producer has filled.
  ProducerKnows-reset :
      (width : ℕ) (buf : List (Option A)) (head tail : ℕ) (p : Producer A)
      → head < tail
      → ProducerKnows width buf head tail p
      → ProducerKnows width (set buf (head % width) none) head tail p
  ProducerKnows-reset width buf head tail Producer.outside l k = tt
  ProducerKnows-reset width buf head tail (Producer.check v) l k = tt
  ProducerKnows-reset width buf head tail (Producer.load_tail m v) l k = tt
  ProducerKnows-reset width buf head tail (Producer.load_head m v t) l k = k
  ProducerKnows-reset width buf head tail (Producer.write m v t) l k = k
  ProducerKnows-reset width buf head tail (Producer.store_tail m v t) l (e, r, g) = (
    e,
    r,
    get_or-set_ne buf (head % width) (t % width) none none (
          slot_ne width head t (subst (λ k. head < k) (sym e) l)
            (subst (λ k. k < head + width) (sym e) r))
        ∙ g,
  )

  ConsumerKnows-tail :
      (head tail tail' : ℕ) (c : Consumer A)
      → tail ≤ tail'
      → ConsumerKnows head tail c
      → ConsumerKnows head tail' c
  ConsumerKnows-tail head tail tail' Consumer.outside l k = tt
  ConsumerKnows-tail head tail tail' Consumer.check l k = tt
  ConsumerKnows-tail head tail tail' (Consumer.load_head m) l k = tt
  ConsumerKnows-tail head tail tail' (Consumer.load_tail m h) l k = k
  ConsumerKnows-tail head tail tail' (Consumer.take m h) l k = (k.0, omega arith)
  ConsumerKnows-tail head tail tail' (Consumer.store_head m h x) l k = (k.0, omega arith)

  -- The store of `tail_` adds the written value to those in the buffer.
  pub store_tail-IsValid :
      (s : Spsc A) (m : PushMode) (v : A) (t : ℕ)
      → s.producer ≡ Producer.store_tail m v t
      → t + 1 < 2 ^ 64
      → IsValid s
      → IsValid (record s {
        tail = u64 (t + 1);
        producer = Producer.outside;
        push_reply = Reply.pushed true;
        sent = s.sent ++ (v ∷ []);
      })
  store_tail-IsValid s m v t e small h =
      let (at, free, full) =
        subst (ProducerKnows s.capacity s.buffer s.head s.tail) e h.producer_knows in
      let wide : u64 (t + 1) ≡ suc s.tail = omega arith in
      let more : suc s.tail - first s ≡ suc (s.tail - first s) = omega (arith, h.order) in
      let end : first s + (s.tail - first s) ≡ t = omega (arith, h.order) in
      record {
        positive = h.positive;
        storage = h.storage;
        order = omega (arith, h.order);
        room = omega arith;
        producer_knows = tt;
        consumer_knows =
            ConsumerKnows-tail s.head s.tail (u64 (t + 1)) s.consumer (omega arith)
              h.consumer_knows;
        values = h.values ++ (v ∷ []);
        contents =
            ap (λ k. window none s.capacity s.buffer (first s) (k - first s)) wide
            ∙ ap (window none s.capacity s.buffer (first s)) more
            ∙ window-snoc none s.capacity s.buffer (first s) (s.tail - first s)
            ∙ ap₂ (λ xs x. xs ++ (x ∷ [])) h.contents
                (ap (λ k. get_or s.buffer (k % s.capacity) none) end ∙ full)
            ∙ map-snoc h.values v;
        logged =
            ap (λ k. k ++ (v ∷ [])) h.logged
            ∙ append_assoc s.received (in_hand s.consumer ++ h.values) (v ∷ [])
            ∙ ap (λ k. s.received ++ k) (append_assoc (in_hand s.consumer) h.values (v ∷ []));
      }

  -- The invariant, for what a step yields; another phase changes what its thread knows only.
  pub producer_moves :
      (s : Spsc A) (p : Producer A) (r : Reply A)
      → IsValid s
      → ProducerKnows s.capacity s.buffer s.head s.tail p
      → IsValid (record s { producer = p; push_reply = r })
  producer_moves s p r h k = record {
    positive = h.positive;
    storage = h.storage;
    order = h.order;
    room = h.room;
    producer_knows = k;
    consumer_knows = h.consumer_knows;
    values = h.values;
    contents = h.contents;
    logged = h.logged;
  }

  pub consumer_moves :
      (s : Spsc A) (c : Consumer A) (r : Reply A)
      → IsValid s
      → in_hand s.consumer ≡ []
      → in_hand c ≡ []
      → ConsumerKnows s.head s.tail c
      → IsValid (record s { consumer = c; pop_reply = r })
  consumer_moves s c r h e f k =
      let same : in_hand s.consumer ≡ in_hand c = e ∙ sym f in
      record {
        positive = h.positive;
        storage = h.storage;
        order = subst (λ z. s.head + length z ≤ s.tail) same h.order;
        room = h.room;
        producer_knows = h.producer_knows;
        consumer_knows = k;
        values = h.values;
        contents =
            ap
              (λ (z : List A).
                window none s.capacity s.buffer (s.head + length z) (s.tail - (s.head + length z)))
              (sym same)
            ∙ h.contents;
        logged = h.logged ∙ ap (λ z. s.received ++ (z ++ h.values)) same;
      }

  -- The oldest slot holds a value, and the consumer takes it.
  pub take_slot-IsValid :
      (s : Spsc A) (m : PopMode) (k : ℕ)
      → s.consumer ≡ Consumer.take m k
      → IsValid s
      → (x : A) × (take_slot s m k (get_or s.buffer (k % s.capacity) none)
          ≡ some (record s {
            buffer = set s.buffer (k % s.capacity) none;
            consumer = Consumer.store_head m k x;
          }))
        × IsValid (record s {
          buffer = set s.buffer (k % s.capacity) none;
          consumer = Consumer.store_head m k x;
        })
  take_slot-IsValid s m k e h =
      let (at, some_left) = subst (ConsumerKnows s.head s.tail) e h.consumer_knows in
      let free : in_hand s.consumer ≡ [] = ap in_hand e in
      let begins : first s ≡ s.head = ap (λ z. s.head + length z) free ∙ omega arith in
      let more : s.tail - first s ≡ suc (s.tail - suc s.head) = omega arith in
      let split : get_or s.buffer (k % s.capacity) none
            ∷ window none s.capacity s.buffer (suc s.head) (s.tail - suc s.head)
          ≡ map some h.values =
        ap
          (λ i.
            get_or s.buffer (i % s.capacity) none
            ∷ window none s.capacity s.buffer (suc s.head) (s.tail - suc s.head))
          at
        ∙ sym (ap₂ (window none s.capacity s.buffer) begins more)
        ∙ h.contents in
      from h.values split at some_left free h.logged
    where
      from :
          (vs : List A)
          → get_or s.buffer (k % s.capacity) none
              ∷ window none s.capacity s.buffer (suc s.head) (s.tail - suc s.head)
            ≡ map some vs
          → k ≡ s.head
          → s.head < s.tail
          → in_hand s.consumer ≡ []
          → s.sent ≡ s.received ++ (in_hand s.consumer ++ vs)
          → (x : A) × (take_slot s m k (get_or s.buffer (k % s.capacity) none)
              ≡ some (record s {
                buffer = set s.buffer (k % s.capacity) none;
                consumer = Consumer.store_head m k x;
              }))
            × IsValid (record s {
              buffer = set s.buffer (k % s.capacity) none;
              consumer = Consumer.store_head m k x;
            })
      from [] split at left free log = absurd (ground arith)
      from (x ∷ vs) split at left free log =
          let here : get_or s.buffer (k % s.capacity) none ≡ some x = cc in
          let rest : window none s.capacity s.buffer (suc s.head) (s.tail - suc s.head)
              ≡ map some vs =
            cc in
          let room = h.room in
          (
            x,
            ap (take_slot s m k) here,
            record {
              positive = h.positive;
              storage = length-set s.buffer (k % s.capacity) none ∙ h.storage;
              order = omega arith;
              room = h.room;
              producer_knows =
                  subst
                    (λ i.
                      ProducerKnows s.capacity (set s.buffer (i % s.capacity) none) s.head s.tail
                        s.producer)
                    (sym at)
                    (ProducerKnows-reset s.capacity s.buffer s.head s.tail s.producer left
                      h.producer_knows);
              consumer_knows = (at, left);
              values = vs;
              contents =
                  ap₂ (window none s.capacity (set s.buffer (k % s.capacity) none))
                    (let z : s.head + 1 ≡ suc s.head = omega arith in z)
                    (let z : s.tail - (s.head + 1) ≡ s.tail - suc s.head = omega arith in z)
                  ∙ ap
                      (λ i.
                        window none s.capacity (set s.buffer i none) (suc s.head)
                          (s.tail - suc s.head))
                      (ap (λ i. i % s.capacity) at ∙ sym (add-mod_right s.head s.capacity))
                  ∙ window-set_outside none s.capacity s.buffer none (suc s.head)
                      (s.tail - suc s.head) (s.head + s.capacity) (omega arith) (omega arith)
                  ∙ rest;
              logged = log ∙ ap (λ z. s.received ++ (z ++ (x ∷ vs))) free;
            },
          )

  pub store_head-IsValid :
      (s : Spsc A) (m : PopMode) (k : ℕ) (x : A)
      → s.consumer ≡ Consumer.store_head m k x
      → s.tail < 2 ^ 64
      → IsValid s
      → IsValid (record s {
        head = u64 (k + 1);
        consumer = Consumer.outside;
        pop_reply = Reply.popped (some x);
        received = s.received ++ (x ∷ []);
      })
  store_head-IsValid s m k x e small h =
      let (at, left) = subst (ConsumerKnows s.head s.tail) e h.consumer_knows in
      let held : in_hand s.consumer ≡ x ∷ [] = ap in_hand e in
      let begins : u64 (k + 1) ≡ s.head + 1 = omega arith in
      let same : u64 (k + 1) + 0 ≡ first s = omega arith ∙ ap (λ z. s.head + length z) (sym held) in
      let room = h.room in
      record {
        positive = h.positive;
        storage = h.storage;
        order = omega arith;
        room = omega arith;
        producer_knows =
            ProducerKnows-head s.capacity s.buffer s.head (u64 (k + 1)) s.tail s.producer
              (omega arith) h.producer_knows;
        consumer_knows = tt;
        values = h.values;
        contents = ap (λ i. window none s.capacity s.buffer i (s.tail - i)) same ∙ h.contents;
        logged =
            h.logged
            ∙ ap (λ z. s.received ++ (z ++ h.values)) held
            ∙ sym (append_assoc s.received (x ∷ []) h.values);
      }
