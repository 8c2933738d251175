-- ===== src/Storage/IndexIter/Walk.antt =====
-- The walk of `IndexIter::advance` over the records of one key.
use incresql.Prelude.{ℕ, ◌≤◌, ◌≡◌, refl, ◌∙◌, arith}
use incresql.Prelude.{Bool, true, false, Bool-cases, inl, inr, Option, none, some, leb}
use incresql.Prelude.{List, [], ◌∷◌, ◌++◌, map, length, length-append, length-map, drop, take}
use incresql.Prelude.{take-append-drop, length-drop, length-take, All}
use incresql.Prelude.Int.{ℤ, pos, eqb_ℤ}
use incresql.Data.Datum.{Externals, Datum}
use incresql.Encoding.Bytes.{IsU64}
use incresql.Encoding.Datums.{DecimalCodec}
use incresql.Data.Datum.Stored.{stored}
use incresql.Encoding.Datums.RoundTrip.{IsStorable}
use incresql.Storage.Table.{Table}
use incresql.Storage.IndexIter.{Entry, IndexIter, continue, found, round, advance_loop}
use incresql.Storage.IndexIter.Version.{IsPast, header_entry, history_entry, verdict}
use incresql.Storage.IndexIter.Version.{round_header, round_history, round_history_skipped}
use incresql.Storage.IndexIter.Groups.{Version, visible, IsVersion, history}

module _ {x : Externals} (codec : DecimalCodec x) (table : Table) (wide : IsU64 table.columns)
    (now : ℕ) where
  abbrev pub Tuple : Type 0
  Tuple = List (Datum x)

  abbrev pub loop : Bool → Tuple → List Entry → Option (IndexIter x)
  loop = advance_loop codec now

  pub loop_continue :
      (seek seek' : Bool) (buf buf' : Tuple) (e : Entry) (es : List Entry)
      → round codec now seek buf e ≡ some (continue seek' buf')
      → loop seek buf (e ∷ es) ≡ loop seek' buf' es
  unfolding advance_loop
  loop_continue seek seek' buf buf' e es h = rw (h, advance_loop)

  pub loop_found :
      (seek : Bool) (buf buf' : Tuple) (freq : ℤ) (e : Entry) (es : List Entry)
      → round codec now seek buf e ≡ some (found buf' freq)
      → loop seek buf (e ∷ es)
        ≡ some (record {
          entries = e ∷ es;
          timestamp = now;
          first = false;
          tuple_buffer = buf';
          freq = some freq;
        })
  unfolding advance_loop
  loop_found seek buf buf' freq e es h = rw (h, advance_loop)

  -- Where the walk over a key's records ends: in front of the next key, or at the row.
  abbrev pub Ends : Option (Version x) → Tuple → List Entry → Option (IndexIter x) → Type 0
  Ends none key es result =
      (seek : Bool) × (buf : Tuple) × (length buf ≡ table.columns) × (result ≡ loop seek buf es)
  Ends (some v) key es result =
      (e : Entry) × (vs : List (Version x)) × All (λ w. IsVersion table w × IsPast w.timestamp) vs
      × IsVersion table v
      × (result
          ≡ some (record {
            entries = e ∷ (history codec table key vs ++ es);
            timestamp = now;
            first = false;
            tuple_buffer = map stored key ++ map stored v.rest;
            freq = some v.freq;
          }))

  module _ (key : Tuple) (key_storable : All IsStorable key)
      (key_len : length key ≡ length table.pk) where
    split_buffer :
        (buf : Tuple) (v : Version x)
        → length buf ≡ table.columns
        → IsVersion table v
        → (length (take (length key) buf) ≡ length key)
          × (length (drop (length key) buf) ≡ length v.rest)
          × IsU64 (length v.rest)
          × IsU64 (length key)
    split_buffer buf v hb hv =
        let c = hv.columns in
        let t = length-take (length key) buf in
        let d = length-drop (length key) buf in (omega arith, omega arith, omega arith, omega arith)

    history_round :
        (buf : Tuple) (v : Version x)
        → length buf ≡ table.columns
        → IsVersion table v
        → IsPast v.timestamp
        → round codec now false buf (history_entry codec table key v.rest v.timestamp v.freq)
          ≡ some (
              verdict now false v.timestamp v.freq
                (map stored key ++ drop (length key) buf)
                (map stored key ++ map stored v.rest))
    history_round buf v hb hv hp =
        let (m, p, f, k) = split_buffer buf v hb hv in
        rw (take-append-drop (length key) buf) at (
          round_history codec table key v.rest key_storable hv.storable key_len f k now v.timestamp
            v.freq (take (length key) buf) (drop (length key) buf) m p hp hv.freq_fits)

    skip_round :
        (buf : Tuple) (v : Version x)
        → length buf ≡ table.columns
        → IsVersion table v
        → IsPast v.timestamp
        → round codec now true buf (history_entry codec table key v.rest v.timestamp v.freq)
          ≡ some (continue true (map stored key ++ drop (length key) buf))
    skip_round buf v hb hv hp =
        let (m, p, f, k) = split_buffer buf v hb hv in
        rw (take-append-drop (length key) buf) at (
          round_history_skipped codec table key v.rest key_storable hv.storable key_len f k now
            v.timestamp v.freq (take (length key) buf) (drop (length key) buf) m hp)

    pub header_round :
        (seek : Bool) (buf : Tuple) (v : Version x)
        → length buf ≡ table.columns
        → IsVersion table v
        → IsU64 v.timestamp
        → round codec now seek buf (header_entry codec table key v.rest v.timestamp v.freq)
          ≡ some (
              verdict now false v.timestamp v.freq
                (map stored key ++ drop (length key) buf)
                (map stored key ++ map stored v.rest))
    header_round seek buf v hb hv hp =
        let (m, p, f, k) = split_buffer buf v hb hv in
        rw (take-append-drop (length key) buf) at (
          round_header codec table key v.rest key_storable hv.storable key_len f k now seek
            v.timestamp v.freq (take (length key) buf) (drop (length key) buf) m p hp hv.freq_fits)

    pub length-next_buffer :
        (buf : Tuple)
        → length buf ≡ table.columns
        → length key ≤ table.columns
        → length (map stored key ++ drop (length key) buf) ≡ table.columns
    length-next_buffer buf hb hk = omega (
      arith,
      length-append (map stored key) (drop (length key) buf),
      length-map (stored {x = x}) key,
      length-drop (length key) buf,
    )

    -- Seeking the next header skips every other version of the key.
    pub skip_history :
        (vs : List (Version x)) (buf : Tuple) (es : List Entry)
        → length buf ≡ table.columns
        → All (λ w. IsVersion table w × IsPast w.timestamp) vs
        → (buf' : Tuple) × (length buf' ≡ table.columns)
          × (loop true buf (history codec table key vs ++ es) ≡ loop true buf' es)
    skip_history [] buf es hb h = (buf, hb, refl)
    skip_history (v ∷ vs) buf es hb h =
        let c = h.0.0.columns in
        let next = map stored key ++ drop (length key) buf in
        let (buf', hb', e) =
          skip_history vs next es (length-next_buffer buf hb (omega arith)) h.1 in
        (buf', hb', loop_continue true true buf next _ _ (skip_round buf v hb h.0.0 h.0.1) ∙ e)

    -- What the walk does at a version, by the three verdicts.
    pub walk_version :
        (v : Version x) (vs : List (Version x)) (buf : Tuple) (e : Entry) (seek : Bool)
        (es : List Entry)
        → length buf ≡ table.columns
        → IsVersion table v
        → All (λ w. IsVersion table w × IsPast w.timestamp) vs
        → round codec now seek buf e
          ≡ some (
              verdict now false v.timestamp v.freq
                (map stored key ++ drop (length key) buf)
                (map stored key ++ map stored v.rest))
        → Ends (visible now vs) key es (
            loop false (map stored key ++ drop (length key) buf) (history codec table key vs ++ es))
        → Ends
            (visible now (v ∷ vs))
            key
            es
            (loop seek buf (e ∷ (history codec table key vs ++ es)))
    unfolding visible
    walk_version v vs buf e seek es hb hv h at_round later =
        let c = hv.columns in
        let next = map stored key ++ drop (length key) buf in
        let tail = history codec table key vs ++ es in
        elim (Bool-cases (leb now v.timestamp)) [
          | inl future ↦
              rw (future, loop_continue seek false buf next e tail (rw future at at_round)) later
          | inr seen ↦ elim (Bool-cases (eqb_ℤ v.freq (pos 0))) [
            | inl deleted ↦
                let (buf', hb', skipped) =
                  skip_history vs next es (length-next_buffer buf hb (omega arith)) h in
                rw (seen, deleted)
                  (
                    true,
                    buf',
                    hb',
                    loop_continue seek true buf next e tail (rw (seen, deleted) at at_round)
                        ∙ skipped,
                  )
            | inr row ↦
                rw (seen, row)
                  (e, vs, h, hv, loop_found seek buf _ v.freq e tail (rw (seen, row) at at_round))
          ]
        ]

    -- Below a header that is in the future, the walk ends at the newest visible version.
    pub walk_history :
        (vs : List (Version x)) (buf : Tuple) (es : List Entry)
        → length buf ≡ table.columns
        → All (λ w. IsVersion table w × IsPast w.timestamp) vs
        → Ends (visible now vs) key es (loop false buf (history codec table key vs ++ es))
    unfolding visible
    walk_history [] buf es hb h = (false, buf, hb, refl)
    walk_history (v ∷ vs) buf es hb h =
        let c = h.0.0.columns in
        walk_version v vs buf _ false es hb h.0.0 h.1 (history_round buf v hb h.0.0 h.0.1)
          (walk_history vs _ es (length-next_buffer buf hb (omega arith)) h.1)

    pub walk_group :
        (newest : Version x) (past : List (Version x)) (seek : Bool) (buf : Tuple) (es : List Entry)
        → length buf ≡ table.columns
        → IsVersion table newest
        → IsU64 newest.timestamp
        → All (λ w. IsVersion table w × IsPast w.timestamp) past
        → Ends (visible now (newest ∷ past)) key es (
            loop seek buf (
              header_entry codec table key newest.rest newest.timestamp newest.freq
              ∷ (history codec table key past ++ es)))
    walk_group newest past seek buf es hb hv ht h =
        let c = hv.columns in
        walk_version newest past buf _ seek es hb hv h (header_round seek buf newest hb hv ht)
          (walk_history past _ es (length-next_buffer buf hb (omega arith)) h)
