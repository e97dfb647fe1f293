-- ===== src/Rows/Fork/RoundTrip.antt =====
-- What `ForkMeta` decodes to after it was encoded.
use rsk.Prelude.{ℕ, ◌≡◌, ◌≢◌, refl, ap, Option, none, some, arith, unwrap_or}
use rsk.Bytes.BigEndian.{from_be_bytes-to_be_bytes}
use rsk.Rows.Fork.{ForkMeta, IsStorable, reread, parent_of_word, no_parent, from_bytes, as_bytes}
use rsk.Rows.Fork.Layout.{
  length-buffer, slice-forkpoint, slice-parent, slice-forkpoint_hash, slice-tip_height,
  slice-tip_hash, work_read,
}

parent_of_word-unwrap_or :
    (p : Option ℕ) → p ≢ some no_parent → parent_of_word (unwrap_or p no_parent) ≡ p
unfolding parent_of_word
parent_of_word-unwrap_or none h = refl
parent_of_word-unwrap_or (some p) h = ground (arith, λ (e : p ≡ no_parent). h (ap some e))

-- A fork record decodes from its bytes to a record that agrees with it in every field but
-- `tip_work`: that one is read eight bytes too early, and is the last eight bytes of the tip's
-- hash followed by the first 24 bytes of the work.
pub fork_from_bytes-as_bytes :
    (m : ForkMeta) → IsStorable m → from_bytes (as_bytes m) ≡ some (reread m)
unfolding from_bytes as_bytes
fork_from_bytes-as_bytes m h =
    let pa = unwrap_or m.parent no_parent in
    let fp = m.forkpoint in
    let fh = m.forkpoint_hash in
    let th = m.tip_height in
    let tx = m.tip_hash in
    let tw = m.tip_work in
    rw
      (
        length-buffer fp pa fh th tx tw,
        slice-forkpoint fp pa fh th tx tw,
        slice-parent fp pa fh th tx tw,
        slice-forkpoint_hash fp pa fh th tx tw,
        slice-tip_height fp pa fh th tx tw,
        slice-tip_hash fp pa fh th tx tw,
        work_read fp pa fh th tx tw h.tip_work_lt,
        from_be_bytes-to_be_bytes 8 fp h.forkpoint_lt,
        from_be_bytes-to_be_bytes 8 pa h.parent_lt,
        from_be_bytes-to_be_bytes 32 fh h.forkpoint_hash_lt,
        from_be_bytes-to_be_bytes 8 th h.tip_height_lt,
        from_be_bytes-to_be_bytes 32 tx h.tip_hash_lt,
        parent_of_word-unwrap_or m.parent h.parent_ne,
      )
      refl
