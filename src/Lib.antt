-- ===== src/Lib.antt =====
-- live-translation: verification of the Python program that turns a live audio stream into
-- confirmed, translated words.
--
-- A client opens a TCP connection (TCPserver.py), proves that it knows the secret token and is then
-- allowed to send Ogg pages with Opus audio over UDP (UDPserver.py). Each datagram becomes a data
-- package (data.py) that runs through a pipeline of modules: the audio buffer
-- (m_create_audio_buffer.py, on the parser of ogg.py) keeps the pages of the last seconds, the rate
-- limiter (m_rate_limiter.py) drops packages that come too fast, the audio is converted
-- (m_convert_audio.py) and searched for speech (m_vad.py), transcribed, and the words that are old enough are confirmed
-- (m_confirm_words.py). A module exits a package or raises; both are values here.
--
-- The parts, and what models them:
--   Common        lists, integers, sorting, results, floats, dicts, shared by all.
--   Ogg           ogg.py: Ogg.Page is OggS_Page, Ogg.IdHeader and Ogg.CommentHeader are the two
--                 Opus headers, Ogg.Split is _split_ogg_data_into_pages, Ogg.Audio the rest of
--                 Ogg_OPUS_Audio. Ogg.Utf8 is Python's strict UTF-8 decoder.
--   Data          data.py, and the ways in which a module's execute ends.
--   AudioBuffer   Create_Audio_Buffer: execute is AudioBuffer.execute, cut at its returns.
--   RateLimiter   Rate_Limiter.
--   Vad           VoiceActivitySegmentation.apply, merge_chunks and VAD.execute of m_vad.py;
--                 Vad.Binarize is its class Binarize.
--   ConfirmWords  Confirm_Words.
--   Event         EventHandler of Event.py.
--   Tcp           Client of TCPserver.py; its loops and start are in Tcp.Loops, the registration of
--                 callbacks in Tcp.Events, and Server in Tcp.Server; its start is in Tcp.Lifecycle.
--   Udp           Client and Server of UDPserver.py; the loop _listen is in Udp.Listen, the callbacks'
--                 registration in Udp.Events.
--   Stream        StreamServer.py, on Tcp and Udp: Stream.Events registers callbacks, Stream.Lifecycle
--                 starts and stops both servers.
--   Whisper       execute of m_faster_whisper.py.
--   Config        load_settings of Config.py.
--   Convert       m_convert_audio.py.
--   Pipeline      the modules in the order in which main.py puts them, on one package.
--   Main          main.py: Main.handle and onmsg are its callbacks for clients, Main.callback the one
--                 for finished packages, Main.Health the status; Main.Client is that of Client.py.
--   Evaluation    simulate_live_audio_stream.py: compute_statistics; Evaluation.Delay is
--                 time_difference and stats, Evaluation.Playback the playback of a file.
--   Simulation    parts of simulate.py: its callback, the audio files, the URLs.
--   Logger        the truncation and the two formatters of logger.py.
--
-- An object is a record of its attributes, a method a function from the state to the state and what
-- the call returns, an exception an error value with the state as it was when it was raised. A
-- Python int is a natural number or an integer, bytes are lists of numbers. Floats are a type
-- with the operations the code uses, or numbers that stand for floats where a record holds them, and,
-- where a theorem needs it, laws of IEEE 754 that hold for numbers; nothing rounds or is exact unless
-- a law says so. The loops of TCPserver.py run on a list of acts: what
-- recv does in each round, and what other threads do between rounds; there a call of stop runs as a
-- whole; Tcp.Overlap has its steps, for two calls that overlap. Otherwise threads are not
-- modelled, except that a lock which its own thread holds already is a fault.
--
-- Bounds and fuel: the loop that splits a stream runs on one more round than there are bytes, which
-- is enough because each page takes 27 bytes at least; the loop over user comments runs as many
-- rounds as the header says; the loop that removes words runs once per index.
--
-- Not modelled: the speech models and numpy, ffmpeg, sockets and ciphers, difflib and the module
-- statistics (parameters where the code uses their results), the stream_pipeline package with its
-- queues and workers, the set-up of logging, the settings, files and HTTP requests of simulate.py, and
-- the Go bot.
pub mod Common
pub mod Ogg
pub mod Data
pub mod Event
pub mod Udp
pub mod ConfirmWords
pub mod RateLimiter
pub mod Vad
pub mod AudioBuffer
pub mod Tcp
pub mod Stream
pub mod Whisper
pub mod Config
pub mod Evaluation
pub mod Convert
pub mod Pipeline
pub mod Main
pub mod Logger
pub mod Simulation
