-- ===== src/Lib.antt =====
-- The mapper framework runs on an edge node: it keeps the devices that the edge core assigns to it,
-- reads and writes their properties through a protocol driver, records and publishes the values, and
-- serves them over HTTP and gRPC. This library models the part that does the work, and proves what
-- makes it correct.
--
-- The parts and their files:
--   * Prelude: Boolean tests, lists measured by native numbers, `int` values, and the functions of
--     the C library on strings (atoi, strcmp, snprintf, strrchr and their kin).
--   * Common: the records of common/configmaptype.h and common/datamodel.h, the constants of
--     common/const.h, common/dataconverter.c (Dataconverter), common/event.c (Event), cJSON as a
--     parameter (Cjson), and what a function gives that may be undefined (Outcome).
--   * Config: config/config.c, the state machine over the tokens of the configuration file.
--   * Driver: driver/driver.c, the sample protocol client.
--   * Device: device/. JsonScan (json_get_str), Host (normalize_host_port), Simulate
--     (simulate_temperature_data), DealTwin (device_deal_twin), DataThread (device_data_thread),
--     New (device_new), Rebuild (device_runtime_rebuild), Lifecycle (device_start, device_stop,
--     device_restart), Threads (the data thread beside the thread that stops the device, one step of
--     either at a time) and Manager (device_manager_*) are device/device.c; Status is
--     device/devicestatus.c, Twins device/devicetwin.c, Panel device/dev_panel.c.
--   * Recorder: data/dbmethod/mysql/recorder.c.
--   * Database: the clients under data/dbmethod/: Mysql, Redis, Tdengine and Influxdb, and Handler,
--     the thread of redis/handler.c and tdengine/handler.c (that of influxdb2/handler.c is
--     Influxdb.Handler). Env is what they read of the environment.
--   * Publish: data/publish/. Http, Mqtt and Otel are the publishers, Publisher chooses among them.
--   * Stream: data/stream/stream.c. Frames is stream_save_frame, Videos stream_save_video.
--   * Parse: util/parse/grpc.c (ResourceId, and FromGrpc: instances and models from messages) and
--     util/parse/type.c (TwinConv: ConvTwinsToGrpc, ConvGrpcToTwins; MsgTwin: ConvMsgTwinToGrpc).
--   * GrpcServer: grpcserver/device.c, the device service; grpcserver/server.cc in DirectWrite (the
--     command of the server), Apply (the loop of apply_desired_to_device; the rest is Apply.Found),
--     Update (the calls of the service) and Server (its start and stop).
--   * GrpcClient: grpcclient/register.cc.
--   * Http: httpserver/httpserver.c. Router takes a request apart, Handlers answers it, Server is the
--     start and stop.
--   * Log: log/log.c.
--   * Main: main.c. Setup (MySQL and the publisher), Devices (the loop that makes the devices), Wait
--     (the signals, wait_uds_ready) and Shutdown (cleanup_resources and the end).
--   * Tests: concrete inputs for the functions and the theorems.
--
-- How they interact: a request to the REST server is routed to a handler (Http), which asks the
-- panel (Device.Panel); the panel finds the device in the manager (Device.Manager) and reads or
-- writes a twin (Device.Twins), a write by way of the driver. Beside that each running device has
-- a thread (Device.DataThread) that goes through its twins, writes what is desired and not yet
-- reported by a shell command (Device.DealTwin), and hands the value to the recorder and the
-- publisher. The edge core sends new desired values to the gRPC server (GrpcServer.Update), which
-- puts them into the twins, calls Device.DealTwin itself, and else runs a command of its own. The
-- mapper asks the edge core for its devices when it starts (GrpcClient), makes them and adds them to
-- the manager (Main.Devices), and takes everything down at its end (Main.Shutdown).
--
-- Conventions:
--   * A function keeps its name in the source. A function that changes a structure returns the
--     structure; a pointer argument that a result is written to is part of the result. The codes 0
--     and -1 are `success` and `failure`.
--   * `Str` is the list of the bytes of a C string. A `char *` that may be null is an `Option Str`;
--     other pointers that a function tests for null are not null. An array with its count is a list.
--   * `malloc`, `calloc` and `strdup` without a failure path of their own succeed; where the code
--     has such a path, a Boolean argument says what the call does. What `pthread_create` does is an
--     argument too: the handle is undefined where it fails.
--   * A function that holds a mutex throughout is one step. One round of the data thread is one.
--   * `int` values are integers, and texts are read with the wrap-around to 32 bits of `(int)`.
--   * The environment variables, the shell, the clock, the database and the publisher are the record
--     `World`; what is done to them is a list of `Effect` in order.
--   * `%s` prints a null pointer as "(null)", as glibc does.
--   * The conversion `%d` has fuel for 20 digits; a 64-bit value has at most 20. The wait for a
--     socket has fuel of one more than its time in milliseconds, of which each poll takes 100; the
--     attempts of the HTTP publisher have one more than its retries. The loops of the database
--     threads, over frames and over packets take their fuel as an argument, since the source does
--     not bound them. All other loops are structural.
--   * A call that the gRPC server gives up waiting for has its effects in full, since the future it
--     is held by waits for it at its end; only the code is another.
--   * Where two parts of a structure share memory, as a twin and a property of its device, the twin
--     holds the index (`PropertyRef`).
--   * `slots` of `DeviceManager` is the size of the array, which the source does not store. A store
--     beyond it, and the join of a handle that is no thread's, are undefined: the result is `fault`.
--
-- Not modelled: save_frame_to_image of data/stream/stream.c, which only calls FFmpeg; the conversions
-- of floating-point numbers; the functions that release memory; the health check in the main loop,
-- which logs; the time in front of a line of the log; the generated code under dmi/ and google/.
-- cJSON, libcurl, libmosquitto, gRPC, FFmpeg and the client libraries of the databases are
-- parameters, the tokens of libyaml are an input, and what libmicrohttpd gets is the result of a
-- handler: the response that it queues.
pub mod Common
pub mod Config
pub mod Database
pub mod Device
pub mod Driver
pub mod GrpcClient
pub mod GrpcServer
pub mod Http
pub mod Log
pub mod Main
pub mod Parse
pub mod Prelude
pub mod Publish
pub mod Recorder
pub mod Stream
mod Tests
