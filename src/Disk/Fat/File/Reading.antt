-- ===== src/Disk/Fat/File/Reading.antt =====
-- A read of a file gives the bytes of its chain of clusters.
use native.Mathlib.Nat.{zero-add, div-add-mod', mod-lt}
use zenos.Common.{
  ℕ, zero, suc, ◌+◌, ◌-◌, ◌*◌, ◌/◌, ◌%◌, ◌<◌, ◌≤◌, ◌≡◌, inl, inr, refl, ap, ◌∙◌, min, Bool, true,
  false, ◌||◌, not, List, arith, ltb, if◌then◌else◌, le→not_ltb, if_of_true, if_of_false,
  Bool-cases, length, get_or, repeat, length-repeat,
}
use zenos.Disk.Device.{BlockDevice, M, done, pure, ◌>>=◌, then_run}
use zenos.Disk.Device.Reliable.{Disk, Does, read_at-Does, range, length-range}
use zenos.Disk.Fat.Bpb.{Volume, bytes_per_cluster}
use zenos.Disk.Fat.Table.{is_eoc, read_entry, read_cluster}
use zenos.Disk.Fat.Table.Place.{Geometry, InFat}
use zenos.Disk.Fat.Table.Reading.{entry_at, read_entry-Reads}
use zenos.Disk.Fat.File.{
  ReadState, slice, to_copy, copied, more_to_read, read_loop, read_chain, read_from,
}
use zenos.Disk.Fat.File.Copy.{length-copy_into}
use zenos.Disk.Fat.File.Chain.{cluster_start, nth, content, Stored, skip-Does}
use zenos.Disk.Fat.File.Turn.{At, Got, Got-trans, cluster_bytes, copied-Got, next-At}

module _ {S : Type 0} {dev : BlockDevice S} (disk : Disk dev) (v : Volume)
    (g : Geometry v disk.size) (img : ℕ → ℕ) (first file_size : ℕ)
    (st : Stored v disk.size img first file_size) where
  abbrev after_entry : ℕ → ℕ → ReadState → List ℕ → ℕ → M S ReadState
  after_entry fuel cursor r bytes next =
      if is_eoc v.kind next
      then pure (copied v cursor file_size bytes r)
      else read_loop dev v fuel cursor file_size
          (record (copied v cursor file_size bytes r) { cluster = next })

  abbrev after_read : ℕ → ℕ → ReadState → List ℕ → M S ReadState
  after_read fuel cursor r bytes = do
    next ← read_entry dev v r.cluster
    after_entry fuel cursor r bytes next

  in_range :
      (cursor : ℕ) (r : ReadState)
      → more_to_read cursor file_size r ≡ true
      → (r.bytes_read < length r.buf) × (cursor + r.bytes_read < file_size)
  in_range cursor r m = ground arith

  -- A turn reads the cluster and its entry.
  turn_runs :
      (fuel cursor : ℕ) (r : ReadState) (s : S) (a : At disk v g img first file_size st cursor r)
      → disk.image s ≡ img
      → length r.cluster_buf ≡ bytes_per_cluster v.bpb
      → more_to_read cursor file_size r ≡ true
      → (s' : S) × (next : ℕ) × (read_loop dev v (suc fuel) cursor file_size r s
          ≡ after_entry fuel cursor r (cluster_bytes disk v g img first file_size st r) next s')
        × (disk.image s' ≡ img)
        × (next ≡ nth v img (suc a.k) first)
  unfolding read_loop read_cluster
  turn_runs fuel cursor r s a i l m =
      let (two0, f0, fits0) = st.on_disk a.k (omega (arith, a.place, in_range cursor r m)) in
      let two : 2 ≤ r.cluster = rw a.here two0 in
      let f : InFat v r.cluster = rw a.here f0 in
      let fits : cluster_start v r.cluster + bytes_per_cluster v.bpb ≤ disk.size =
        rw a.here fits0 in
      let (s1, e1, i1) =
        read_at-Does disk (cluster_start v r.cluster) r.cluster_buf s (rw l fits) in
      let (s2, e2, i2) = read_entry-Reads disk v g r.cluster s1 f in
      let b : range (disk.image s) (cluster_start v r.cluster) (length r.cluster_buf)
          ≡ cluster_bytes disk v g img first file_size st r =
        rw (i, l) refl in
      (
        s2,
        entry_at v (disk.image s1) r.cluster,
        ap (λ (t : M S ReadState). t s)
              (if_of_false _ _ (goes (more_to_read cursor file_size r) m (le→not_ltb _ 2 two)))
            ∙ ap (then_run (after_read fuel cursor r)) (e1 ∙ ap (λ x. (s1, done x)) b)
            ∙ ap
                (then_run
                  (after_entry fuel cursor r (cluster_bytes disk v g img first file_size st r)))
                e2,
        i2 ∙ i1 ∙ i,
        rw (i1, i, a.here) refl,
      )
    where
      goes : (b : Bool) → b ≡ true → ltb r.cluster 2 ≡ false → (not b || ltb r.cluster 2) ≡ false
      goes b e q = rw (e, q) refl

  -- What the loop leaves when it is given enough fuel.
  pub record Ends (cursor : ℕ) (m : M S ReadState) (s : S) (r : ReadState) : Type 0 where
    pub r' : ReadState
    pub does : Does disk m s r' img
    pub got : Got disk v g img first file_size st cursor r r'
    pub finished : more_to_read cursor file_size r' ≡ false

  stops :
      (fuel cursor : ℕ) (r : ReadState) (s : S)
      → more_to_read cursor file_size r ≡ false
      → read_loop dev v (suc fuel) cursor file_size r s ≡ (s, done r)
  unfolding read_loop
  stops fuel cursor r s m = rw m refl

  -- A turn reads at least one byte.
  fewer :
      (fuel cursor : ℕ) (r : ReadState)
      → At disk v g img first file_size st cursor r
      → more_to_read cursor file_size r ≡ true
      → length r.buf - r.bytes_read < suc fuel
      → length (copied v cursor file_size (cluster_bytes disk v g img first file_size st r) r).buf
          - (copied v cursor file_size
              (cluster_bytes disk v g img first file_size st r)
              r).bytes_read
        < fuel
  fewer fuel cursor r a m h = omega (
    arith,
    in_range cursor r m,
    a.within,
    length-copy_into r.buf r.bytes_read (
        slice (cluster_bytes disk v g img first file_size st r) r.offset_in_cluster
          (to_copy v cursor file_size r)),
  )

  pub read_loop-Ends :
      (fuel cursor : ℕ) (r : ReadState) (s : S)
      → disk.image s ≡ img
      → length r.buf - r.bytes_read < fuel
      → r.bytes_read ≤ length r.buf
      → cursor + r.bytes_read ≤ file_size
      → length r.cluster_buf ≡ bytes_per_cluster v.bpb
      → (more_to_read cursor file_size r ≡ true → At disk v g img first file_size st cursor r)
      → Ends cursor (read_loop dev v fuel cursor file_size r) s r
  read_loop-Ends zero cursor r s i fu room inside l at_ = absurd (omega arith)
  read_loop-Ends (suc fuel) cursor r s i fu room inside l at_ =
      elim (Bool-cases (more_to_read cursor file_size r)) [
        | inl m ↦
            let a = at_ m in
            let (s', next, e, i', n) = turn_runs fuel cursor r s a i l m in
            let r1 =
              copied v cursor file_size (cluster_bytes disk v g img first file_size st r) r in
            let got = copied-Got disk v g img first file_size st cursor r a room inside in
            elim (Bool-cases (is_eoc v.kind next)) [
              | inl eoc ↦ record {
                r' = r1;
                does = (s', e ∙ ap (λ (t : M S ReadState). t s') (if_of_true _ _ eoc), i');
                got = got;
                finished = elim (Bool-cases (more_to_read cursor file_size r1)) [
                  | inl more ↦
                      absurd_bool
                        (next-At disk v g img first file_size st cursor r a
                          (cluster_bytes disk v g img first file_size st r) next n more).0
                        eoc
                  | inr stop ↦ stop
                ];
              }
              | inr link ↦
                  let ih =
                    read_loop-Ends fuel cursor (record r1 { cluster = next }) s' i'
                      (fewer fuel cursor r a m fu) got.room got.in_file (length-range img _ _)
                      (λ more.
                        (next-At disk v g img first file_size st cursor r a
                          (cluster_bytes disk v g img first file_size st r) next n more).1) in
                  record {
                    r' = ih.r';
                    does = (
                      ih.does.0,
                      e ∙ ap (λ (t : M S ReadState). t s') (if_of_false _ _ link) ∙ ih.does.1,
                      ih.does.2,
                    );
                    got =
                        Got-trans disk v g img first file_size st cursor r
                          (record r1 { cluster = next }) ih.r'
                          (record {
                            grows = got.grows;
                            room = got.room;
                            in_file = got.in_file;
                            same_length = got.same_length;
                            before = got.before;
                            read_bytes = got.read_bytes;
                            after = got.after;
                          })
                          ih.got;
                    finished = ih.finished;
                  }
            ]
        | inr m ↦ record {
          r' = r;
          does = (s, stops fuel cursor r s m, i);
          got = record {
            grows = omega arith;
            room = room;
            in_file = inside;
            same_length = refl;
            before = λ i h. refl;
            read_bytes = λ i lo hi. absurd (omega arith);
            after = λ i h. refl;
          };
          finished = m;
        }
      ]
    where
      absurd_bool : {A : Type 0} {b : Bool} → b ≡ false → b ≡ true → A
      absurd_bool p q = cc

  start : ℕ → ℕ → List ℕ → ReadState
  start cursor cluster buf = record {
    bytes_read = 0;
    cluster = cluster;
    offset_in_cluster = cursor % bytes_per_cluster v.bpb;
    cluster_buf = repeat (bytes_per_cluster v.bpb) 0;
    buf = buf;
  }

  -- What a read from an offset within the file gives.
  pub record Gives (cursor : ℕ) (buf : List ℕ) (count : ℕ) (filled : List ℕ) : Type 0 where
    pub counted : count ≡ min (length buf) (file_size - cursor)
    pub same_length : length filled ≡ length buf
    pub given : (i : ℕ) → i < count → get_or filled i 0 ≡ content v img first (cursor + i)
    pub untouched : (i : ℕ) → count ≤ i → get_or filled i 0 ≡ get_or buf i 0

  pub read_chain-Gives :
      (cursor : ℕ) (buf : List ℕ) (s : S)
      → disk.image s ≡ img
      → cursor < file_size
      → (count : ℕ) × (filled : List ℕ) × Does disk
          (read_chain dev v cursor file_size first buf)
          s
          (count, filled)
          img
        × Gives cursor buf count filled
  unfolding read_chain read_from start
  read_chain-Gives cursor buf s i h =
      let cs = bytes_per_cluster v.bpb in
      let k = cursor / cs in
      let d = div-add-mod' cursor cs in
      let (s1, e1, i1) =
        skip-Does disk v g img first file_size st k 0 s i
          (let z : (0 + k) * cs ≡ k * cs = ap (λ j. j * cs) (zero-add k) in omega (arith, z, d)) in
      let c = nth v img (0 + k) first in
      let e =
        read_loop-Ends (suc (length buf)) cursor (start cursor c buf) s1 i1 (omega arith)
          (omega arith) (omega arith) (length-repeat {A = ℕ} cs 0)
          (λ m. record {
            k = k;
            place = omega (arith, d);
            within = mod-lt cursor st.some_bytes;
            here = ap (λ j. nth v img j first) (zero-add k);
          }) in
      (
        e.r'.bytes_read,
        e.r'.buf,
        (
          e.does.0,
          ap (then_run (read_from dev v cursor file_size buf)) e1
              ∙ ap (then_run (λ (r : ReadState). pure (r.bytes_read, r.buf))) e.does.1,
          e.does.2,
        ),
        record {
          counted =
              ends cursor e.r' (length buf) e.got.same_length e.got.room e.got.in_file e.finished;
          same_length = e.got.same_length;
          given = λ i h. e.got.read_bytes i (omega arith) h;
          untouched = e.got.after;
        },
      )
    where
      ends :
          (cursor : ℕ) (r : ReadState) (n : ℕ)
          → length r.buf ≡ n
          → r.bytes_read ≤ length r.buf
          → cursor + r.bytes_read ≤ file_size
          → more_to_read cursor file_size r ≡ false
          → r.bytes_read ≡ min n (file_size - cursor)
      ends cursor r n l a b m = ground arith
