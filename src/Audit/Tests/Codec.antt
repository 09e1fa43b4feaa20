-- ===== src/Audit/Tests/Codec.antt =====
-- A writer of the entries whose event is a genesis or a note, and its reader: numbers and lengths
-- stand as one character each, shifted past the control characters.
use archangel.Common.{
  ℕ, zero, suc, ◌+◌, ◌-◌, ◌≤◌, ◌≡◌, refl, sym, ap, subst, ◌∙◌, [], ◌∷◌, All, length, Result, ok,
  err, ◌>>=◌, >>=-ok_inv, ok_injective, arith,
}
use archangel.Common.Text.{Str}
use archangel.Audit.{AuditEvent, AuditRecord, AuditEntry}
use archangel.Audit.Entry.Laws.{IsObject}

abbrev pub put_chars : Str → Str → Str
put_chars [] tail = tail
put_chars (c ∷ s) tail = (c + 32) ∷ put_chars s tail

abbrev pub put : Str → Str → Str
put s tail = (length s + 32) ∷ put_chars s tail

abbrev pub get_chars : ℕ → Str → Str × Str
get_chars zero text = ([], text)
get_chars (suc n) [] = ([], [])
get_chars (suc n) (c ∷ text) = let rest = get_chars n text in ((c - 32) ∷ rest.0, rest.1)

abbrev pub get : Str → Str × Str
get [] = ([], [])
get (n ∷ text) = get_chars (n - 32) text

get_chars-put_chars : (s tail : Str) → get_chars (length s) (put_chars s tail) ≡ (s, tail)
get_chars-put_chars [] tail = refl
get_chars-put_chars (c ∷ s) tail =
    let same : c + 32 - 32 ≡ c = omega arith in rw (get_chars-put_chars s tail, same) refl

pub get-put : (s tail : Str) → get (put s tail) ≡ (s, tail)
get-put s tail =
    let same : length s + 32 - 32 ≡ length s = omega arith in rw same (get_chars-put_chars s tail)

abbrev pub put_record : ℕ → AuditRecord → Str → Str → Str
put_record tag r s tail =
    (tag + 32) ∷ (r.seq + 32) ∷ (r.timestamp_ms + 32) ∷ put r.prev_hash (put s tail)

abbrev event_text : AuditRecord → AuditEvent → Str → Result Str Str
event_text r (AuditEvent.genesis key) tail = ok (put_record 0 r key tail)
event_text r (AuditEvent.note message) tail = ok (put_record 1 r message tail)
event_text r _ tail = err []

abbrev pub record_text : AuditRecord → Str → Result Str Str
record_text r tail = event_text r r.event tail

abbrev pub event_of : ℕ → Str → AuditEvent
event_of zero s = AuditEvent.genesis s
event_of (suc n) s = AuditEvent.note s

abbrev pub read_record : Str → Result (AuditRecord × Str) Str
read_record (tag ∷ seq ∷ now ∷ text) =
    let prev = get text in
    let s = get prev.1 in
    ok (
      record {
        seq = seq - 32;
        timestamp_ms = now - 32;
        prev_hash = prev.0;
        event = event_of (tag - 32) s.0;
      },
      s.1,
    )
read_record _ = err []

event_text-ok :
    (r : AuditRecord) (event : AuditEvent) (tail text : Str)
    → event_text r event tail ≡ ok text
    → (tag : ℕ) × (s : Str) × (event_of tag s ≡ event) × (put_record tag r s tail ≡ text)
event_text-ok r (AuditEvent.genesis key) tail text h = (0, key, refl, ok_injective h)
event_text-ok r (AuditEvent.note message) tail text h = (1, message, refl, ok_injective h)
event_text-ok r _ tail text h = absurd (cc h)

read_record-put_record :
    (tag : ℕ) (r : AuditRecord) (s tail : Str)
    → read_record (put_record tag r s tail)
      ≡ ok (
        record {
          seq = r.seq;
          timestamp_ms = r.timestamp_ms;
          prev_hash = r.prev_hash;
          event = event_of tag s;
        },
        tail,
      )
read_record-put_record tag r s tail =
    let same : (n : ℕ) → n + 32 - 32 ≡ n = λ n. omega arith in
    rw (same tag, same r.seq, same r.timestamp_ms, get-put r.prev_hash (put s tail), get-put s tail)
      refl

pub read_record-record_text :
    (r : AuditRecord) (tail text : Str)
    → record_text r tail ≡ ok text
    → read_record text ≡ ok (r, tail)
read_record-record_text r tail text h =
    let (tag, s, e, t) = event_text-ok r r.event tail text h in
    ap read_record (sym t)
    ∙ (read_record-put_record tag r s tail
        ∙ ap
            (λ v. ok (
              record {
                seq = r.seq;
                timestamp_ms = r.timestamp_ms;
                prev_hash = r.prev_hash;
                event = v;
              },
              tail,
            ))
            e)

abbrev pub entry_to_text : AuditEntry → Result Str Str
entry_to_text e =
    record_text e.record_ (put e.signature (put e.entry_hash [])) >>= λ t. ok (b'{' ∷ t)

abbrev pub read_entry : AuditRecord × Str → AuditEntry
read_entry (r, text) =
    let signature = get text in
    record { record_ = r; signature = signature.0; entry_hash = (get signature.1).0 }

abbrev pub entry_from_str : Str → Result AuditEntry Str
entry_from_str [] = err []
entry_from_str (c ∷ text) = read_record text >>= λ p. ok (read_entry p)

pub entry_from_str-entry_to_text :
    (e : AuditEntry) (text : Str) → entry_to_text e ≡ ok text → entry_from_str text ≡ ok e
entry_from_str-entry_to_text e text h =
    let (t, a, b) =
      >>=-ok_inv (record_text e.record_ (put e.signature (put e.entry_hash []))) _ h in
    rw⁻¹ (ok_injective b) (
      rw
        (
          read_record-record_text e.record_ _ t a,
          get-put e.signature (put e.entry_hash []),
          get-put e.entry_hash [],
        )
        refl)

abbrev IsHigh : Str → Type 0
IsHigh s = All (λ c. 32 ≤ c) s

put_chars-IsHigh : (s tail : Str) → IsHigh tail → IsHigh (put_chars s tail)
put_chars-IsHigh [] tail h = h
put_chars-IsHigh (c ∷ s) tail h = (omega arith, put_chars-IsHigh s tail h)

put-IsHigh : (s tail : Str) → IsHigh tail → IsHigh (put s tail)
put-IsHigh s tail h = (omega arith, put_chars-IsHigh s tail h)

put_record-IsHigh :
    (tag : ℕ) (r : AuditRecord) (s tail : Str) → IsHigh tail → IsHigh (put_record tag r s tail)
put_record-IsHigh tag r s tail h = (
  omega arith,
  (omega arith, (omega arith, put-IsHigh r.prev_hash (put s tail) (put-IsHigh s tail h))),
)

record_text-IsHigh :
    (r : AuditRecord) (tail text : Str) → IsHigh tail → record_text r tail ≡ ok text → IsHigh text
record_text-IsHigh r tail text k h =
    let (tag, s, e, t) = event_text-ok r r.event tail text h in
    subst IsHigh t (put_record-IsHigh tag r s tail k)

pub entry_to_text-IsObject :
    (e : AuditEntry) (text : Str) → entry_to_text e ≡ ok text → IsObject text
entry_to_text-IsObject e text h =
    let (t, a, b) =
      >>=-ok_inv (record_text e.record_ (put e.signature (put e.entry_hash []))) _ h in
    record {
      rest = t;
      braced = sym (ok_injective b);
      printable =
          record_text-IsHigh e.record_ (put e.signature (put e.entry_hash [])) t
            (put-IsHigh e.signature _ (put-IsHigh e.entry_hash [] tt)) a;
    }
