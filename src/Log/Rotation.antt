-- ===== src/Log/Rotation.antt =====
-- Which lines of the log reach a file, in TinyWebServer/log/log.cpp.
use make_linux_server.Base.{
  ℕ, ◌+◌, ◌%◌, ◌≤◌, ◌≡◌, ◌≢◌, refl, ap, sym, ◌∙◌, Bool, true, false, Option, none, some, List, [],
  ◌∷◌, ◌++◌, ◌&&◌, ltb, ◌==◌, if◌then◌else◌, length, take, arith, Bool-cases, inl, inr,
  length-append,
}
use make_linux_server.Log.{
  Time, Log, rotates, rotate, write_log, store_line, format_line, put_line, new_file, stamp,
}

-- The lines that are in a file or in the queue.
abbrev pub kept : Log → ℕ
kept l = length l.lines + length l.queue

-- A line within a day that does not fill up a file is only counted: it reaches neither a file nor the
-- queue.
pub lost_line :
    (opens : List ℕ → Bool) (level : ℕ) (message : List ℕ) (t : Time) (l : Log)
    → l.today ≡ t.day
    → (l.count + 1) % l.split_lines ≢ 0
    → write_log opens level message t l ≡ some (record l { count = l.count + 1 })
unfolding write_log
lost_line opens level message t l d n =
    let e : rotates t (record l { count = l.count + 1 }) ≡ false = ground arith in rw e refl

put_line-kept :
    (line : List ℕ) (o : Option (List ℕ)) (l m : Log)
    → put_line line o l ≡ some m
    → kept m ≡ kept l + 1
put_line-kept line none l m h = absurd (ground (arith, h))
put_line-kept line (some name) l m h =
    let e : kept (record l { lines = (name, line) ∷ l.lines }) ≡ kept m =
      ap (λ o. elim o [ none ↦ 0 | some q ↦ kept q ]) h in
    omega (arith, e)

store_line-kept : (l m : Log) (o : Option (List ℕ)) → store_line l o ≡ some m → kept m ≡ kept l + 1
store_line-kept l m none h = absurd (ground (arith, h))
store_line-kept l m (some line) h =
    elim (Bool-cases (l.is_async && ltb (length l.queue) l.max_queue_size)) [
      | inl e ↦
          let k : store_line l (some line) ≡ some (record l { queue = l.queue ++ line ∷ [] }) =
            rw e refl in
          let f : kept (record l { queue = l.queue ++ line ∷ [] }) ≡ kept m =
            ap (λ o. elim o [ none ↦ 0 | some q ↦ kept q ]) (sym k ∙ h) in
          omega (arith, f, length-append l.queue (line ∷ []))
      | inr e ↦
          let k : store_line l (some line) ≡ put_line line l.file l = rw e refl in
          put_line-kept line l.file l m (sym k ∙ h)
    ]

new_file-kept : (t : Time) (l : Log) → kept (new_file t l).1 ≡ kept l
unfolding new_file
new_file-kept t l = elim (Bool-cases (l.today == t.day)) [ inl e ↦ rw e refl | inr e ↦ rw e refl ]

rotate-kept :
    (opens : List ℕ → Bool) (level : ℕ) (message : List ℕ) (t : Time) (o : Option (List ℕ))
    (l m : Log)
    → rotate opens level message t o l ≡ some m
    → kept m ≡ kept l + 1
rotate-kept opens level message t none l m h = absurd (ground (arith, h))
rotate-kept opens level message t (some old) l m h =
    let f = new_file t l in
    let opened = record f.1 { file = if opens (take 254 f.0) then some (take 254 f.0) else none } in
    store_line-kept opened m (format_line level message t opened) h
    ∙ ap (λ n. n + 1) (new_file-kept t l)

-- The number of lines in the files and the queue grows by one for a line that starts a new file, and
-- not at all for any other line.
pub write_log-kept :
    (opens : List ℕ → Bool) (level : ℕ) (message : List ℕ) (t : Time) (l m : Log)
    → write_log opens level message t l ≡ some m
    → kept m ≡ kept l + (if rotates t (record l { count = l.count + 1 }) then 1 else 0)
unfolding write_log
write_log-kept opens level message t l m h =
    elim (Bool-cases (rotates t (record l { count = l.count + 1 }))) [
      | inl e ↦
          let counted = record l { count = l.count + 1 } in
          let k : write_log opens level message t l
              ≡ rotate opens level message t counted.file counted =
            rw e refl in
          rw e (rotate-kept opens level message t counted.file counted m (sym k ∙ h))
      | inr e ↦
          let k : write_log opens level message t l ≡ some (record l { count = l.count + 1 }) =
            rw e refl in
          let f : kept l ≡ kept m = ap (λ o. elim o [ none ↦ 0 | some q ↦ kept q ]) (sym k ∙ h) in
          rw e (omega (arith, f))
    ]

format_line-none :
    (level : ℕ) (message : List ℕ) (t : Time) (l : Log)
    → l.log_buf_size ≤ length message
    → format_line level message t l ≡ none
unfolding format_line
format_line-none level message t l h =
    let e : ltb (length (stamp level t ++ message) + 1) l.log_buf_size ≡ false =
      ground (arith, length-append (stamp level t) message) in
    rw e refl

new_file-size : (t : Time) (l : Log) → (new_file t l).1.log_buf_size ≡ l.log_buf_size
unfolding new_file
new_file-size t l = elim (Bool-cases (l.today == t.day)) [ inl e ↦ rw e refl | inr e ↦ rw e refl ]

rotate_long :
    (opens : List ℕ → Bool) (level : ℕ) (message : List ℕ) (t : Time) (o : Option (List ℕ))
    (l : Log)
    → l.log_buf_size ≤ length message
    → rotate opens level message t o l ≡ none
rotate_long opens level message t none l h = refl
rotate_long opens level message t (some old) l h =
    let f = new_file t l in
    let opened = record f.1 { file = if opens (take 254 f.0) then some (take 254 f.0) else none } in
    ap (store_line opened)
      (format_line-none level message t opened (omega (arith, new_file-size t l)))

-- With a message that does not fit into `m_buf`, a line that starts a new file writes behind the end
-- of it, whatever the rest of the log is like.
pub long_line :
    (opens : List ℕ → Bool) (level : ℕ) (message : List ℕ) (t : Time) (l : Log)
    → rotates t (record l { count = l.count + 1 }) ≡ true
    → l.log_buf_size ≤ length message
    → write_log opens level message t l ≡ none
unfolding write_log
long_line opens level message t l r h =
    rw r (rotate_long opens level message t l.file (record l { count = l.count + 1 }) h)
