-- ===== src/Exchange/End.antt =====
-- When the customer of src/process_interactive.c stops.
use a_test.Base.{
  ◌<◌, ◌≡◌, refl, sym, ap, ◌∙◌, Bool, true, false, List, [], ◌∷◌, ◌++◌, ◌||◌, arith, length,
  length-take,
}
use a_test.Exchange.{
  Text, text_sz, is_end, cut, Producer, waiting, entering, copying, flagging, Customer, printing,
  resetting, checking, stopped, System, next_producer, next_customer, Step, waits, goes_on, enters,
  copies, flags, starts, polls, sees, prints, overruns, resets, checks, Reach, here, next,
}
use a_test.Exchange.Order.{IsStart}

abbrev pub any_end : List Text → Bool
any_end [] = false
any_end (line ∷ lines) = is_end line || any_end lines

is_end-cut : (line : Text) → is_end (cut line) ≡ is_end line
unfolding cut
is_end-cut [] = refl
is_end-cut (a ∷ []) = refl
is_end-cut (a ∷ b ∷ []) = refl
is_end-cut (a ∷ b ∷ c ∷ rest) = unfold is_end in refl

any_end-append : (xs ys : List Text) → any_end (xs ++ ys) ≡ (any_end xs || any_end ys)
any_end-append [] ys = refl
any_end-append (x ∷ xs) ys = ground (arith, any_end-append xs ys)

-- A line in the producer's buffer that is still to be copied or flagged.
abbrev buffers_end : Producer → Bool
buffers_end (copying line) = is_end line
buffers_end (flagging line) = is_end line
buffers_end _ = false

abbrev has_stopped : Customer → Bool
has_stopped stopped = true
has_stopped _ = false

-- Wherever an "end" is seen, one was entered.
record IsFounded (s : System) : Type 0 where
  text : is_end s.some_text ≡ true → any_end s.entered ≡ true
  buffered : buffers_end s.producer ≡ true → any_end s.entered ≡ true
  stops : has_stopped s.customer ≡ true → any_end s.entered ≡ true

next_producer-buffers_end : (b : Bool) → buffers_end (next_producer b) ≡ false
unfolding next_producer
next_producer-buffers_end true = refl
next_producer-buffers_end false = refl

next_customer-has_stopped : (b : Bool) → has_stopped (next_customer b) ≡ b
unfolding next_customer
next_customer-has_stopped true = refl
next_customer-has_stopped false = refl

Step-IsFounded : {s t : System} → Step s t → IsFounded s → IsFounded t
Step-IsFounded (waits s p f) h = h
Step-IsFounded (goes_on s p f) h = record { text = h.text; buffered = λ e. cc; stops = h.stops }
Step-IsFounded (enters s line p) h =
    let all = any_end-append s.entered (line ∷ []) in
    record {
      text = λ e. ground (arith, all, h.text e);
      buffered = λ e. ground (arith, all, e);
      stops = λ e. ground (arith, all, h.stops e);
    }
Step-IsFounded (copies s line p) h =
    let b : buffers_end (copying line) ≡ true → any_end s.entered ≡ true = rw p at h.buffered in
    record { text = λ e. b (sym (is_end-cut line) ∙ e); buffered = b; stops = h.stops }
Step-IsFounded (flags s line p) h = record {
  text = h.text;
  buffered = λ e. absurd (ground (arith, next_producer-buffers_end (is_end line), e));
  stops = h.stops;
}
Step-IsFounded (starts s c) h = record { text = h.text; buffered = h.buffered; stops = λ e. cc }
Step-IsFounded (polls s c f) h = h
Step-IsFounded (sees s c f) h = record { text = h.text; buffered = h.buffered; stops = λ e. cc }
Step-IsFounded (prints s c l) h = record { text = h.text; buffered = h.buffered; stops = λ e. cc }
Step-IsFounded (overruns s c l) h = record { text = h.text; buffered = h.buffered; stops = λ e. cc }
Step-IsFounded (resets s c) h = record { text = h.text; buffered = h.buffered; stops = λ e. cc }
Step-IsFounded (checks s c) h = record {
  text = h.text;
  buffered = h.buffered;
  stops = λ e. h.text (sym (next_customer-has_stopped (is_end s.some_text)) ∙ e);
}

Reach-IsFounded : {s t : System} → IsFounded s → Reach s t → IsFounded t
Reach-IsFounded h here = h
Reach-IsFounded h (next r step) = Step-IsFounded step (Reach-IsFounded h r)

start-IsFounded : (s : System) → IsStart s → IsFounded s
start-IsFounded s h = record {
  text = λ e. absurd (ground (arith, h.no_end, e));
  buffered = λ e. absurd (ground (arith, ap buffers_end h.producer_waits, e));
  stops = λ e. absurd (ground (arith, ap has_stopped h.customer_polls, e));
}

-- From such a start, the customer stops only if a line that begins with "end" was entered.
pub stopped_after_end :
    {s t : System} → IsStart s → Reach s t → t.customer ≡ stopped → any_end t.entered ≡ true
stopped_after_end {s} {t} start r done =
    (Reach-IsFounded (start-IsFounded s start) r).stops (ap has_stopped done)

length-cut : (x : Text) → length x < text_sz → length (cut x) < text_sz
unfolding cut
length-cut x h = omega (arith, length-take text_sz x)

-- From such a start, any two lines can make the customer stop with the second one unprinted: where
-- the first is shorter than the memory and no "end", and the second begins with "end", the
-- processes can reach a state in which both were entered, only the first was printed and the
-- customer has stopped, since it compares the text only after it has reset the flag.
pub end_unprinted :
    (s : System) (x line : Text)
    → IsStart s
    → length x < text_sz
    → is_end x ≡ false
    → is_end line ≡ true
    → (t : System) × Reach s t
      × (t.customer ≡ stopped)
      × (t.entered ≡ x ∷ line ∷ [])
      × (t.printed ≡ cut x ∷ [])
end_unprinted s x line start short goes ends =
    let s₁ : System = record s { producer = entering } in
    let s₂ : System = record s₁ { producer = copying x; entered = s.entered ++ x ∷ [] } in
    let s₃ : System = record s₂ { producer = flagging x; some_text = cut x } in
    let s₄ : System = record s₃ { producer = next_producer (is_end x); written_by_you = true } in
    let s₅ : System = record s₄ { customer = printing } in
    let s₆ : System = record s₅ { customer = resetting; printed = s.printed ++ cut x ∷ [] } in
    let s₇ : System = record s₆ { customer = checking; written_by_you = false } in
    let s₈ : System = record s₇ { producer = entering } in
    let s₉ : System = record s₈ {
      producer = copying line;
      entered = (s.entered ++ x ∷ []) ++ line ∷ [];
    } in
    let s₁₀ : System = record s₉ { producer = flagging line; some_text = cut line } in
    let s₁₁ : System = record s₁₀ { customer = next_customer (is_end (cut line)) } in
    let back : next_producer (is_end x) ≡ waiting = rw goes (unfold next_producer in refl) in
    let halt : next_customer (is_end (cut line)) ≡ stopped =
      rw (is_end-cut line, ends) (unfold next_customer in refl) in
    let fits : length (cut x) < text_sz = length-cut x short in
    let one : Reach s s₄ =
      next
        (next (next (next here (goes_on s start.producer_waits start.flag_down)) (enters s₁ x refl))
          (copies s₂ x refl))
        (flags s₃ x refl) in
    let two : Reach s s₇ =
      next (next (next one (sees s₄ start.customer_polls refl)) (prints s₅ refl fits))
        (resets s₆ refl) in
    let three : Reach s s₁₁ =
      next
        (next (next (next two (goes_on s₇ back refl)) (enters s₈ line refl)) (copies s₉ line refl))
        (checks s₁₀ refl) in
    (s₁₁, three, halt, rw start.no_line refl, rw start.no_output refl)
