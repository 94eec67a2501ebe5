-- ===== src/Lib.antt =====
-- LeIOT: the device shadow service of a television and what its clients follow.
--
-- The server process of jni/server holds one DeviceShadow, which is an IOTService. Other processes
-- connect as clients over the binder, follow properties and commands of the device, and register
-- callbacks. What the cloud changes goes through the SDK's callbacks to the clients that follow it;
-- what the clients report, or answer when they are asked, goes through the attributes of the shadow to
-- the SDK.
--
-- Files and code:
--   Common, StdMap: what the parts share. Numbers are native; a C string is a list of byte codes,
--     `memcpy`, `strncpy` and `c_str` work on the bytes of one object and give `none` outside it. StdMap
--     is std::map by std::string: a list of pairs in the order of the keys.
--   Service: jni/server/IOT_Service.cpp and IOT_Service.h. A client is the address of its object, 0 being
--     NULL; a Service is m_clients, m_keyFollow, m_cmdFollow and the objects. create_client,
--     remove_client, add_following, wait_for_client and client_active are the functions of these names.
--     Service/Calls: callCommandCB, callPropertySet, callPropertyGet, with the calls to the callbacks as a
--     list. Service/Reach: histories of calls, by clients that createClient has made, connected or not.
--     Service/Session: the methods of IOTClient, over the interface Backend of IOTService's virtual
--     functions. Service/Race: createClient by several threads, whose test is made outside the lock.
--     Service/Wake: what the other threads do while the shadow's thread waits for a client, and
--     waits that end without a signal.
--     Service/Subscriptions: who is connected and follows what, as functions that events change, with no
--     vector and no map; Service/Refines reads the events off a history of the service. The other files
--     beneath Service hold proofs.
--   Command: _DS_call_default_command_cb of jni/server/IOT_DeviceShadow.cpp up to the command's name,
--     with pointers as offsets into the message.
--   Shadow: jni/server/IOT_DeviceShadow.cpp and IOT_DeviceShadow.h. A Shadow is the service together with
--     m_iotAttrs, m_reportFlag, g_forceReport, m_shadow, m_reportPeriod, and the calls made to the SDK.
--     Shadow/Value: the memory of an attribute. Shadow/Report: doAddProperty, doReportEvent,
--     doReportProperty. Shadow/Push: pushProperties, as built with AVOID_QCLOUD_BUG. Shadow/Update:
--     updateProperties. Shadow/Cloud: the callbacks given to the SDK. Shadow/Loop: setupShadow, preShadow,
--     postShadow and a round of threadLoop. Shadow/Thread: yieldShadow and threadLoop. Shadow/Subclass
--     fills the interface Backend with the shadow. Shadow/PushRace: pushProperties between the clients'
--     threads, the reset of its flags being a step of its own. The other files beneath Shadow hold proofs.
--   Locks: m_lockClis and m_lockAttrs, what each operation takes and gives back, and threads of
--     operations. Locks/Order: the order of the two; Locks/Progress: threads that keep it.
--     Locks/Reentry: callbacks that call the service.
--   Heap: blocks by address, and who owns them. Service/Memory: the vectors of followers.
--     Shadow/Memory: _newProperty, _addProperty, _delProperty and the destructor by the blocks that they
--     allocate and free.
--   ClientJni: jni/client/IOT_ClientJNI.cpp and IOT_ClientJNI.h, the library in a client's process, with
--     the text of each Java string. Remote is the interface of the service's transactions that it uses,
--     and ClientJni/Replay fills it with the methods of Service and Service/Session. The other files
--     beneath ClientJni hold proofs.
--   Binder: jni/binder, the proxies (Bp...) and the stubs (Bn...) through which a Remote or a client's
--     callbacks are used from another process. Binder/Client: IIOTClient.cpp. Binder/Service:
--     IIOTService.cpp. Binder/Callbacks: IIOTCommandCB.cpp and IIOTPropertyCB.cpp. Binder/Remoting: the
--     proxies together, and with the stubs behind them. The other files beneath Binder hold proofs.
--   Java: jni/client/IOT_PropertyCB.cpp, IOT_CommandCB.cpp and IOT_Helper.cpp, the callbacks that call
--     Java. Java/Natives: jni/IOT_JNI.cpp, the native methods and their table. Java/Reports: what Java
--     reports, down to the shadow. Java/Answers: the callbacks behind their proxies. The other files beneath Java hold proofs.
--   Examples: concrete runs.
--
-- Parameters: the SDK (Sdk: its push format and what its calls return), HAL_Snprintf (Hal: it writes less
-- than `size` bytes of text), the allocator (Alloc: which calloc fails), what a client answers to a remote
-- `get` (`none` where the call fails), the clock's readings, the handles that IOT_Shadow_Construct
-- returns, what the other threads make of the shadow while waitForClient waits (`none` for a wait that
-- never ends), what the tries to reach the service give (Tries), a parcel of the binder (Parcels, with its
-- laws IsLawful: items are read in the order in which they were written), the transactions on an object
-- and those that a stub does not know (Transact), the Java runtime (Jni), and the virtual machine (Vm).
-- `left_first` is the order in which the service's compiler evaluates the arguments of a call, and
-- `attached` is whether the thread has a Java environment.
--
-- Bounds: 10 clients (MAX_CLINETS), 64 bytes for a command (COMMAND_MAX_LEN), 32 and 256 bytes for the
-- values of a refresh (ATTR_VALUE_MAX_LEN), all as in the source. An `int32_t` is its residue modulo
-- 2 ^ 32 in four bytes, little-endian; a text that atoi cannot hold in an `int` is undefined there and
-- `none` here. Only setupShadow's wait for a handle and waitForClient's have no end of their own: the
-- first one runs on fuel, one unit for each call of IOT_Shadow_Construct, and `none` stands for more
-- calls than that. The rounds of _connect are counted by the code itself. A length of callPropertyGet
-- is a number, its buffers being far below 2 ^ 31 bytes.
--
-- Not modelled: the process's main (jni/server/IOT_Server.cpp), the Java class, logging, sleeping, and
-- the strings of the connection parameters. The reference counts of sp<> are the library's. Whole
-- operations are steps, as the locks make them, but for createClient and pushProperties, whose parts
-- outside the locks are steps of their own; other races on data outside the locks are not modelled.
pub mod Common
pub mod StdMap
pub mod Heap
pub mod Service
pub mod Command
pub mod Shadow
pub mod Locks
pub mod ClientJni
pub mod Binder
pub mod Java
pub mod Examples
