-- ===== src/SeqTracker.antt =====
-- The tracker that gives every record of an intercept its sequence number,
-- collector/collector_seqtracker.c. The pre-encoded fields and the sending to the workers are left out, and allocations are taken to
-- succeed.
pub mod Sequencing
pub mod Numbers
pub mod Records
mod Tests
use https_github_com_open_li.Prelude.{
  ℕ, ◌+◌, ◌%◌, Bool, true, false, ◌&&◌, Option, none, some, List, [], ◌∷◌, ◌++◌, if◌then◌else◌,
  ◌==◌,
}
use https_github_com_open_li.Uthash.{bytes_eq, hash_find, hash_add, hash_delete}

abbrev pub u32 : ℕ → ℕ
u32 n = n % 4294967296

-- the kinds of records, openli_export_type
pub data ExportType : Type 0 where
  ipmmcc ipcc umtscc ipiri ipmmiri umtsiri raw_sync emailiri emailcc : ExportType

-- published_intercept_msg_t
pub record InterceptMsg : Type 0 where
  pub liid : List ℕ
  pub authcc : List ℕ
  pub delivcc : List ℕ
  pub encryptkey : Option (List ℕ)
  pub encryptmethod : ℕ

-- cin_seqno_t
pub record CinSeqno : Type 0 where
  pub cin : ℕ
  pub iri_seqno : ℕ
  pub cc_seqno : ℕ

-- exporter_intercept_state_t
pub record InterceptState : Type 0 where
  pub details : InterceptMsg
  pub cinsequencing : List CinSeqno
  pub version : ℕ

-- openli_export_recv_t: the type, with the LIID and CIN that are extracted from it
pub record ExportRecv : Type 0 where
  pub type : ExportType
  pub liid : List ℕ
  pub cin : ℕ

-- openli_encoding_job_t
pub record EncodingJob : Type 0 where
  pub origreq : ExportRecv
  pub seqno : ℕ
  pub cept_version : ℕ
  pub encryptkey : Option (List ℕ)
  pub encryptmethod : ℕ

-- the test that chooses `cc_seqno`
abbrev pub is_cc : ExportType → Bool
is_cc ipmmcc = true
is_cc ipcc = true
is_cc umtscc = true
is_cc emailcc = true
is_cc _ = false

pub has_liid : List ℕ → InterceptState → Bool
has_liid liid s = bytes_eq s.details.liid liid

-- a change through the pointer that HASH_FIND gives
pub change_intercept :
    List ℕ → (InterceptState → InterceptState) → List InterceptState → List InterceptState
unfolding has_liid
change_intercept liid f [] = []
change_intercept liid f (s ∷ ss) =
    if has_liid liid s then f s ∷ ss else s ∷ change_intercept liid f ss

-- new details under the old LIID
abbrev pub renewed : InterceptMsg → InterceptState → InterceptState
renewed msg s = record s {
  details = record msg { liid = s.details.liid };
  version = (s.version + 1) % 256;
}

pub track_new_intercept : List InterceptState → InterceptMsg → List InterceptState
unfolding change_intercept
track_new_intercept intercepts cept = elim (hash_find (has_liid cept.liid) intercepts) [
  | some _ ↦ change_intercept cept.liid (renewed cept) intercepts
  | none ↦ hash_add (record { details = cept; cinsequencing = []; version = 0 }) intercepts
]

pub reconfigure_intercepts : List InterceptState → List InterceptState
reconfigure_intercepts [] = []
reconfigure_intercepts (s ∷ ss) =
    record s { version = (s.version + 1) % 256 } ∷ reconfigure_intercepts ss

-- an unknown LIID changes nothing (the value returned is -1)
pub modify_tracked_intercept : List InterceptState → InterceptMsg → List InterceptState
unfolding change_intercept
modify_tracked_intercept intercepts msg = change_intercept msg.liid (renewed msg) intercepts

pub remove_tracked_intercept : List InterceptState → InterceptMsg → List InterceptState
unfolding has_liid
remove_tracked_intercept intercepts msg = hash_delete (has_liid msg.liid) intercepts

-- the number that a record takes
abbrev pub seqno_of : Bool → CinSeqno → ℕ
seqno_of true c = c.cc_seqno
seqno_of false c = c.iri_seqno

abbrev pub counted : Bool → CinSeqno → CinSeqno
counted true c = record c { cc_seqno = u32 (c.cc_seqno + 1) }
counted false c = record c { iri_seqno = u32 (c.iri_seqno + 1) }

abbrev pub new_cin : ℕ → CinSeqno
new_cin cin = record { cin = cin; iri_seqno = 0; cc_seqno = 0 }

-- finding or adding the CIN, and taking its number
pub take_seqno : ℕ → Bool → List CinSeqno → ℕ × List CinSeqno
take_seqno cin cc [] = (seqno_of cc (new_cin cin), counted cc (new_cin cin) ∷ [])
take_seqno cin cc (c ∷ cs) =
    let rest = take_seqno cin cc cs in
    if c.cin == cin then (seqno_of cc c, counted cc c ∷ cs) else (rest.0, c ∷ rest.1)

-- the job that is pushed, `none` for an unknown LIID
pub run_encoding_job : List InterceptState → ExportRecv → Option EncodingJob × List InterceptState
unfolding has_liid change_intercept take_seqno
run_encoding_job intercepts recvd = elim (hash_find (has_liid recvd.liid) intercepts) [
  | none ↦ (none, intercepts)
  | some s ↦ (
    some (record {
      origreq = recvd;
      seqno = (take_seqno recvd.cin (is_cc recvd.type) s.cinsequencing).0;
      cept_version = s.version;
      encryptkey = s.details.encryptkey;
      encryptmethod = s.details.encryptmethod;
    }),
    change_intercept recvd.liid
        (λ t. record t {
          cinsequencing = (take_seqno recvd.cin (is_cc recvd.type) t.cinsequencing).1;
        })
        intercepts,
  )
]

-- what reaches the thread, except the order to halt
pub data Event : Type 0 where
  announced : InterceptMsg → Event
  altered : InterceptMsg → Event
  ended : InterceptMsg → Event
  reconfigured : Event
  received : ExportRecv → Event

pub handle : Event → List InterceptState → Option EncodingJob × List InterceptState
unfolding track_new_intercept modify_tracked_intercept remove_tracked_intercept
    reconfigure_intercepts run_encoding_job
handle (announced msg) intercepts = (none, track_new_intercept intercepts msg)
handle (altered msg) intercepts = (none, modify_tracked_intercept intercepts msg)
handle (ended msg) intercepts = (none, remove_tracked_intercept intercepts msg)
handle reconfigured intercepts = (none, reconfigure_intercepts intercepts)
handle (received recvd) intercepts = run_encoding_job intercepts recvd
