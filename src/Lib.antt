-- ===== src/Lib.antt =====
-- A verification library for OpenLI, a lawful interception system in three programs: the collector
-- finds intercepted traffic and encodes it, the mediator hands the records to the agencies, and the
-- provisioner configures both. Paths are from the repository's root.
--
-- The parts and their files:
-- - Reassembler: src/collector/reassembler.c, with which the collector puts together fragmented IP
--   datagrams and SIP messages in TCP streams before it looks for targets in them.
--   Reassembler.Fragment is one datagram (update_ipfrag_reassemble_stream, is_ip_reassembled,
--   get_next_ip_reassembled, get_ipfrag_ports), Reassembler.IpStreams the table of them
--   (get_ipfrag_reassemble_stream, its purge, remove_ipfrag_reassemble_stream), Reassembler.Seq the
--   comparison seq_cmp, Reassembler.Sip the search find_sip_message_end, Reassembler.Segment one TCP
--   stream (update_tcp_reassemble_stream), Reassembler.NextMessage get_next_tcp_reassembled, and
--   Reassembler.TcpStreams the table of streams (get_tcp_reassemble_stream, its purge, removal).
-- - ExportBuffer: src/export_buffer.c, the queue of encoded bytes that collector and mediator keep for
--   each connection; ExportBuffer.Transmit is its transmit functions, with (int)sent written out. The collector fills it with
--   append_message_to_buffer, the mediator with append_etsipdu_to_buffer.
-- - LiidMap: src/mediator/liidmapping.c, the LIIDs that an agency's thread handles, with the callbacks
--   and timers of src/mediator/lea_send_thread.c that run over them when a provisioner comes and goes.
-- - Netcomms: src/netcomms.c, the protocol in which the provisioner tells the mediator of LIIDs (and
--   much else): the net buffer, headers and TLV fields, and in Netcomms.Messages the two messages that
--   end in add_liid_agency_mapping and withdraw_liid_agency_mapping.
-- - SeqTracker: src/collector/collector_seqtracker.c, where the collector numbers the records of each
--   intercept before they are encoded; its handle is one round of seqtracker_main.
-- - InterceptTimers: src/provisioner/intercept_timers.c with announce_hi1_notification_to_mediators of
--   src/provisioner/clientupdates.c, where the provisioner decides which changes of an intercept it
--   announces to the mediators.
-- - Intercept: src/intercept.c, the tables of the intercepts for each user and each mail address, in which
--   the collector looks for those that a session or a mail is for.
-- - AccessSession: src/collector/internetaccess.c, the sessions of users of internet access and their
--   addresses, which the plugins for RADIUS and GTP fill.
-- - Radius: src/collector/accessplugins/radius.c, where the collector follows the sessions of its targets
--   in RADIUS traffic. Radius.Servers finds server and NAS of a packet (update_known_servers),
--   Radius.Attributes reads it (radius_parse_packet), Radius.Users names its users
--   (radius_get_userid), Radius.Requests joins responses to requests (find_matching_request, and the
--   saving of requests), Radius.Orphans keeps responses that came before their request,
--   Radius.Fsm is the state machine (apply_fsm_logic), Radius.Sessions its use on a message with
--   request and response, Radius.Update the whole radius_update_session_state with the removal of
--   users, Radius.Iri the records made of the actions, with create_ipiri_job_from_packet of
--   src/collector/ipiri.c, and Radius.Collector the part of update_user_sessions in
--   src/collector/collector_sync.c that calls them.
-- - Gtp: src/collector/accessplugins/gtp.c, the same for mobile users in GTP traffic. Gtp.Ie names the
--   information elements, Gtp.Numbers reads IMSI and MSISDN (get_gtpnum_from_ie), Gtp.Elements and
--   Gtp.TvElements walk the elements of the two versions (walk_gtpv2_ies, walk_gtpv1_ies), and
--   Gtp.Sessions joins requests and responses and applies them to a session
--   (gtp_update_session_state, apply_gtp_fsm_logic, extract_gtp_assigned_ip_address);
--   Gtp.Sessions.Records lists the records of its packets (gtp_generate_iri_data, their types only).
-- - Prelude has the shared names, tests, lists, integers and outcomes; Uthash has what the code uses of
--   the header library uthash, with the sort HASH_SORT as an interface and one instance of it.
--
-- State is a record with the fields of the C struct, passed explicitly. Memory is a list of bytes and a
-- pointer into it an offset. A failed assertion is `aborted`; loops without an evident bound are on fuel,
-- and `out_of_fuel` is what the theorems on termination exclude: the recursion of
-- update_tcp_reassemble_stream takes the number of new bytes plus one, appending to an export buffer 83,
-- since 82 extensions of 50 MB cover a record of 2 ^ 32 bytes, a push onto a net buffer 2, the loops over
-- RADIUS attributes and GTP elements the number of bytes plus one, and the records of one RADIUS message
-- 3. In Radius, Gtp and AccessSession `none`, or `aborted`, is an invalid access to memory. Integers are
-- written modulo their width where the code may reach it. Sockets, TLS, RabbitMQ, libtrace, the hash
-- function hashlittle and the addresses that malloc gives are parameters, functions or values that say
-- what they answer; a Judy array is the list of its items.
--
-- Not modelled: freeing memory, logging, NULL arguments; the collector's threads, packet decoding and
-- ASN.1 encoding; the headers of GTP and what its records contain; intercepted mail; the mediator's
-- sockets and timers; the provisioner's configuration, JSON and HTTP.
pub mod Prelude
pub mod Uthash
pub mod Reassembler
pub mod ExportBuffer
pub mod LiidMap
pub mod Netcomms
pub mod Gtp
pub mod Intercept
pub mod InterceptTimers
pub mod SeqTracker
pub mod AccessSession
pub mod Radius
