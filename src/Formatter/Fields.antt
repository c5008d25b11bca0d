-- ===== src/Formatter/Fields.antt =====
-- What each token of a pattern stands for.
use sim_logger.Prelude.{
  ℕ, ◌%◌, ◌^◌, ◌<◌, Bool, true, false, ◌||◌, [], ◌∷◌, ◌++◌, Option, some, ℤ, pos, negsuc, ◌≡◌, refl,
  sym, subst, inl, inr, ltb, Bool-cases, arith, length, Bytes, codes, bytes_eq, bytes_eq_iff,
}
use sim_logger.Level.{to_string}
use sim_logger.LogRecord.{LogRecord}
use sim_logger.Formatter.{
  Printed, read_buffer, ok, to_u64, append_double, append_thread_id, append_token,
}
use sim_logger.Formatter.Decimal.{IsDecimal, append_chars_fits}

-- The token is one of the ten.
abbrev pub known : Bytes → Bool
known t =
    bytes_eq t (codes "level")
    || (bytes_eq t (codes "sim")
        || (bytes_eq t (codes "met")
            || (bytes_eq t (codes "wall_ns")
                || (bytes_eq t (codes "thread")
                    || (bytes_eq t (codes "file")
                        || (bytes_eq t (codes "line")
                            || (bytes_eq t (codes "function")
                                || (bytes_eq t (codes "logger")
                                    || (bytes_eq t (codes "msg"))))))))))

to_u64-lt : (z : ℤ) → to_u64 z < 2 ^ 64
unfolding to_u64
to_u64-lt (pos n) = omega arith
to_u64-lt (negsuc n) = omega arith

module _ {D T : Type 0} (snprintf : D → Option Printed) (hash : T → ℕ) (r : LogRecord D T) where
  -- The text for a token; an unknown token stands for itself.
  pub data Field : Bytes → Bytes → Type 0 where
    level : Field (codes "level") (to_string r.level)
    sim : {p : Printed} → snprintf r.sim_time ≡ some p → Field (codes "sim") p.text
    met : {p : Printed} → snprintf r.met ≡ some p → Field (codes "met") p.text
    wall_ns : {s : Bytes} → IsDecimal (to_u64 r.wall_time_ns) s → Field (codes "wall_ns") s
    thread : {s : Bytes} → IsDecimal (hash r.thread_id % 2 ^ 64) s → Field (codes "thread") s
    file : Field (codes "file") r.file
    line : {s : Bytes} → IsDecimal r.line s → Field (codes "line") s
    function : Field (codes "function") r.function
    logger : Field (codes "logger") r.logger_name
    msg : Field (codes "msg") r.message
    unknown : {t : Bytes} → known t ≡ false → Field t (123 ∷ t ++ (125 ∷ []))

  -- The two times print to texts that fit the buffer of 64 bytes with its end mark, and the line
  -- number has 32 bits.
  pub record IsPrintable : Type 0 where
    pub sim_text : (p : Printed) × (snprintf r.sim_time ≡ some p) × (ltb (length p.text) 64 ≡ true)
    pub met_text : (p : Printed) × (snprintf r.met ≡ some p) × (ltb (length p.text) 64 ≡ true)
    pub line_width : r.line < 2 ^ 32

  append_double-fits :
      (out : Bytes) (x : D) (p : Printed)
      → snprintf x ≡ some p
      → ltb (length p.text) 64 ≡ true
      → append_double snprintf hash out x ≡ ok (out ++ p.text)
  unfolding append_double read_buffer
  append_double-fits out x p e room = rw (e, append_double, room)

  Shows : Bytes → Bytes → Type 0
  Shows out t = (s : Bytes) × (append_token snprintf hash r out t ≡ ok (out ++ s)) × Field t s

  same : (out t name : Bytes) → bytes_eq t name ≡ true → Shows out name → Shows out t
  same out t name e shown = subst (Shows out) (sym ((bytes_eq_iff t name).0 e)) shown

  -- The numbers and times.
  Shows-sim : IsPrintable → (out : Bytes) → Shows out (codes "sim")
  unfolding Shows append_token bytes_eq
  Shows-sim p out =
      let (t, e, room) = p.sim_text in (t.text, append_double-fits out r.sim_time t e room, sim e)

  Shows-met : IsPrintable → (out : Bytes) → Shows out (codes "met")
  unfolding Shows append_token bytes_eq
  Shows-met p out =
      let (t, e, room) = p.met_text in (t.text, append_double-fits out r.met t e room, met e)

  Shows-wall_ns : (out : Bytes) → Shows out (codes "wall_ns")
  unfolding Shows append_token bytes_eq
  Shows-wall_ns out =
      let ((s, e, d), more) =
        append_chars_fits out (to_u64 r.wall_time_ns) 0 (to_u64-lt r.wall_time_ns) (omega arith) in
      (s, e, wall_ns d)

  Shows-thread : (out : Bytes) → Shows out (codes "thread")
  unfolding Shows append_token append_thread_id bytes_eq
  Shows-thread out =
      let ((s, e, d), more) =
        append_chars_fits out (hash r.thread_id % 2 ^ 64) 0 (omega arith) (omega arith) in
      (s, e, thread d)

  Shows-line : IsPrintable → (out : Bytes) → Shows out (codes "line")
  unfolding Shows append_token bytes_eq
  Shows-line p out =
      let (less, (s, e, d)) = append_chars_fits out 0 r.line (omega arith) p.line_width in
      (s, e, line d)

  -- One token, as it is written.
  pub append_token-Field :
      IsPrintable
      → (out t : Bytes)
      → (s : Bytes) × (append_token snprintf hash r out t ≡ ok (out ++ s)) × Field t s
  unfolding Shows append_token bytes_eq
  append_token-Field p out t = elim (Bool-cases (bytes_eq t (codes "level"))) [
    | inl e ↦ same out t (codes "level") e (to_string r.level, refl, level)
    | inr n0 ↦ elim (Bool-cases (bytes_eq t (codes "sim"))) [
      | inl e ↦ same out t (codes "sim") e (Shows-sim p out)
      | inr n1 ↦ elim (Bool-cases (bytes_eq t (codes "met"))) [
        | inl e ↦ same out t (codes "met") e (Shows-met p out)
        | inr n2 ↦ elim (Bool-cases (bytes_eq t (codes "wall_ns"))) [
          | inl e ↦ same out t (codes "wall_ns") e (Shows-wall_ns out)
          | inr n3 ↦ elim (Bool-cases (bytes_eq t (codes "thread"))) [
            | inl e ↦ same out t (codes "thread") e (Shows-thread out)
            | inr n4 ↦ elim (Bool-cases (bytes_eq t (codes "file"))) [
              | inl e ↦ same out t (codes "file") e (r.file, refl, file)
              | inr n5 ↦ elim (Bool-cases (bytes_eq t (codes "line"))) [
                | inl e ↦ same out t (codes "line") e (Shows-line p out)
                | inr n6 ↦ elim (Bool-cases (bytes_eq t (codes "function"))) [
                  | inl e ↦ same out t (codes "function") e (r.function, refl, function)
                  | inr n7 ↦ elim (Bool-cases (bytes_eq t (codes "logger"))) [
                    | inl e ↦ same out t (codes "logger") e (r.logger_name, refl, logger)
                    | inr n8 ↦ elim (Bool-cases (bytes_eq t (codes "msg"))) [
                      | inl e ↦ same out t (codes "msg") e (r.message, refl, msg)
                      | inr n9 ↦ (
                        123 ∷ t ++ (125 ∷ []),
                        rw (n0, n1, n2, n3, n4, n5, n6, n7, n8, n9, append_token),
                        unknown (rw (n0, n1, n2, n3, n4, n5, n6, n7, n8, n9)),
                      )
                    ]
                  ]
                ]
              ]
            ]
          ]
        ]
      ]
    ]
  ]
