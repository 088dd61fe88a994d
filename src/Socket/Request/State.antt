-- ===== src/Socket/Request/State.antt =====
-- What the fields of a socket of socket_server.c say of the packets that it has accepted.
use skynet_notes.Prelude.{
  ℕ, ◌+◌, ◌≡◌, refl, ap, ap₂, sym, ◌∙◌, Bool, true, false, ◌&&◌, not, Option, none, some, List, [],
  ◌∷◌, ◌++◌, append_assoc, length, ltb, ◌==◌, ==_iff, either, arith,
}
use skynet_notes.Prelude.Interleave.{Interleave, append_second}
use skynet_notes.Socket.{
  WriteBuffer, unsent, Socket, Result, nothing, is_invalid, is_halfclose_read, is_halfclose_write,
  is_empty, send_buffer_empty,
}
use skynet_notes.Socket.Close.{force_close, close_write}
use skynet_notes.Socket.Send.{list_uncomplete, not_reset, stopped, check_close}
use skynet_notes.Socket.Buffers.{concat, packets, bytes, AllWhole, concat-append}

abbrev pub direct_bytes : Option WriteBuffer → List ℕ
direct_bytes none = []
direct_bytes (some wb) = unsent wb

-- Of the packets of high priority `hs` and of low priority `ls`, some are in `front`, in the order in which they
-- go out; the others are in the low list, whole.
pub record LiveAt (high low : List WriteBuffer) (wb_size : ℕ) (direct : Option WriteBuffer)
    (wire : List ℕ) (hs ls : List (List ℕ)) : Type 0 where
  pub front : List (List ℕ)
  pub early : List (List ℕ)
  pub merged : Interleave hs early front
  pub late : ls ≡ early ++ packets low
  pub whole : AllWhole low
  pub stream : wire ++ (direct_bytes direct ++ bytes high) ≡ concat front
  pub counted : wb_size ≡ length (bytes high) + length (bytes low)

abbrev pub Live : Socket → List (List ℕ) → List (List ℕ) → Type 0
Live s hs ls = LiveAt s.high s.low s.wb_size s.direct s.wire hs ls

-- What was written is the start of the packets accepted, in one of their orders.
pub record Gone (wire : List ℕ) (hs ls : List (List ℕ)) : Type 0 where
  pub order : List (List ℕ)
  pub rest : List ℕ
  pub merged : Interleave hs ls order
  pub stream : wire ++ rest ≡ concat order

-- The socket is not closed, and `k` requests to send are counted.
abbrev pub Valid : Socket → ℕ → Type 0
Valid s k = (is_invalid s.type ≡ false) × (s.sending ≡ k)

pub data Holds (s : Socket) (k : ℕ) (hs ls : List (List ℕ)) : Type 0 where
  live : Valid s k → Live s hs ls → Holds s k hs ls
  dead : is_invalid s.type ≡ true → s.sending ≡ k → Gone s.wire hs ls → Holds s k hs ls

-- A function of the socket thread fails no assertion, and leaves the socket as it should.
pub data Fine (k : ℕ) (hs ls : List (List ℕ)) : Option (Socket × Result) → Type 0 where
  fine : (s : Socket) (r : Result) → Holds s k hs ls → Fine k hs ls (some (s, r))

pub Live-Gone : (s : Socket) {hs ls : List (List ℕ)} → Live s hs ls → Gone s.wire hs ls
Live-Gone s {hs} {ls} l = record {
  order = l.front ++ packets s.low;
  rest = (direct_bytes s.direct ++ bytes s.high) ++ concat (packets s.low);
  merged = rw (l.late) (append_second (packets s.low) l.merged);
  stream =
      sym (append_assoc s.wire (direct_bytes s.direct ++ bytes s.high) (concat (packets s.low)))
      ∙ ap (λ (t : List ℕ). t ++ concat (packets s.low)) l.stream
      ∙ sym (concat-append l.front (packets s.low));
}

pub contrary : {A : Type 0} {b : Bool} → b ≡ true → b ≡ false → A
contrary e f = absurd (ground (arith, e, f))

pub force_close-Holds :
    (s : Socket) {k : ℕ} {hs ls : List (List ℕ)}
    → Live s hs ls
    → Valid s k
    → Holds (force_close s) k hs ls
unfolding force_close
force_close-Holds s {k} {hs} {ls} l v =
    either (λ (t : Socket). Holds t k hs ls) (is_invalid s.type) (λ e. contrary e v.0)
      (λ e. dead refl v.1 (Live-Gone s l))

pub close_write-Holds :
    (s : Socket) {k : ℕ} {hs ls : List (List ℕ)}
    → Valid s k
    → Live s hs ls
    → Holds (close_write s).0 k hs ls
unfolding close_write
close_write-Holds s {k} {hs} {ls} v l =
    let P = λ (r : Socket × Result). Holds r.0 k hs ls in
    let closed = force_close-Holds s l v in
    either P s.closing (λ e. closed)
      (λ e.
        either P (is_halfclose_read s.type) (λ f. closed)
          (λ f. either P (is_halfclose_write s.type) (λ g. live v l) (λ g. live (refl, v.1) l)))

pub stopped-Fine :
    (s : Socket) {k : ℕ} {hs ls : List (List ℕ)}
    → Valid s k
    → Live s hs ls
    → Fine k hs ls (stopped s)
stopped-Fine s v l = fine (close_write s).0 (not_reset (close_write s).1) (close_write-Holds s v l)

pub check_close-Fine :
    (fails : Bool) (s : Socket) {k : ℕ} {hs ls : List (List ℕ)}
    → Valid s k
    → Live s hs ls
    → s.high ≡ []
    → s.low ≡ []
    → Fine k hs ls (check_close fails s)
unfolding check_close
check_close-Fine fails s {k} {hs} {ls} v l h low_empty =
    let none_left : s.wb_size ≡ 0 =
      l.counted
      ∙ ap₂ (λ (x y : List WriteBuffer). length (bytes x) + length (bytes y)) h low_empty in
    let empty : not (send_buffer_empty s && (s.wb_size == 0)) ≡ false =
      rw (h, low_empty, none_left) refl in
    let P = Fine k hs ls in
    either P (not (send_buffer_empty s && (s.wb_size == 0))) (λ e. contrary e empty)
      (λ e.
        either P s.closing (λ c. fine (force_close s) nothing (force_close-Holds s l v))
          (λ c.
            either P (s.writing && fails) (λ w. fine _ _ (live v l))
              (λ w.
                either P (ltb 0 s.warn_size) (λ z. fine _ _ (live v l))
                  (λ z. fine _ _ (live v l)))))

pub empty_list : (l : List WriteBuffer) → is_empty l ≡ true → l ≡ []
empty_list [] e = refl
empty_list (wb ∷ l) e = absurd (ground (arith, e))

pub not_uncomplete : (l : List WriteBuffer) → AllWhole l → list_uncomplete l ≡ false
not_uncomplete [] w = refl
not_uncomplete (wb ∷ l) w =
    let e : (wb.offset == 0) ≡ true = (==_iff wb.offset 0).1 w.0 in rw e refl
